-- ===== src/Auth/Requests.antt =====
-- crates/riley-leaderboards-api/src/auth.rs: requests, refusals and the values of the crates hmac and
-- jsonwebtoken, which are the fields of `Tokens`.
use Prim.Native.Char.{code}
use riley_leaderboards.Prelude.{
  ℕ, ◌+◌, String, ◌⊎◌, inl, inr, Bool, true, false, ◌&&◌, Option, none, some, List, [], ◌∷◌, leb,
  num_eq, if◌then◌else◌, and_then, bytes, lookup,
}

-- `r?` on a result with its own kind of error.
infixl 5 ◌>>=◌ ◌>>◌
abbrev pub ◌>>=◌ : {E A B : Type 0} (r : E ⊎ A) (rest : A → E ⊎ B) → E ⊎ B
inl e >>= rest = inl e
inr a >>= rest = rest a

abbrev pub ◌>>◌ : {E B : Type 0} (r : E ⊎ Unit {0}) (rest : E ⊎ B) → E ⊎ B
r >> rest = r >>= λ _. rest

abbrev pub refuse_if : {E : Type 0} → Bool → E → E ⊎ Unit {0}
refuse_if true e = inl e
refuse_if false e = inr tt

abbrev pub ok_or : {E A : Type 0} → Option A → E → E ⊎ A
ok_or none e = inl e
ok_or (some a) e = inr a

abbrev pub map_err : {E F A : Type 0} → (E → F) → E ⊎ A → F ⊎ A
map_err f (inl e) = inl (f e)
map_err f (inr a) = inr a

abbrev pub is_right : {E A : Type 0} → E ⊎ A → Bool
is_right (inl e) = false
is_right (inr a) = true

abbrev pub is_some_and : {A : Type 0} → (A → Bool) → Option A → Bool
is_some_and p none = false
is_some_and p (some a) = p a

pub data Method : Type 0 where
  get head options post patch put delete : Method

abbrev pub is_read : Method → Bool
is_read get = true
is_read head = true
is_read options = true
is_read _ = false

-- A header whose value is not visible ASCII has no text.
pub record Request : Type 0 where
  pub method : Method
  pub headers : List (String × Option String)

pub data AuthError : Type 0 where
  no_bearer invalid_token read_only admin_required : AuthError
  missing_kid stale_cache unknown_key algorithm_mismatch insufficient : AuthError
  invalid_jwt jwt_failed : String → AuthError

pub data Algorithm : Type 0 where
  rs256 rs384 rs512 es256 es384 eddsa other_algorithm : Algorithm

abbrev pub eq_algorithm : Algorithm → Algorithm → Bool
eq_algorithm rs256 rs256 = true
eq_algorithm rs384 rs384 = true
eq_algorithm rs512 rs512 = true
eq_algorithm es256 es256 = true
eq_algorithm es384 es384 = true
eq_algorithm eddsa eddsa = true
eq_algorithm other_algorithm other_algorithm = true
eq_algorithm _ _ = false

pub record JwtHeader : Type 0 where
  pub alg : Algorithm
  pub kid : Option String

pub record Claims : Type 0 where
  pub sub : Option String
  pub roles : Option (List String)

pub record Validation : Type 0 where
  pub algorithm : Algorithm
  pub validate_exp : Bool
  pub validate_nbf : Bool
  pub issuer : Option String
  pub audience : Option String
  pub validate_aud : Bool

-- `hmac key text` is HMAC-SHA256; a token that `decode_header` or `decode` refuses gives a text.
pub record Tokens : Type 1 where
  pub Key : Type 0
  pub hmac : String → String → List ℕ
  pub decode_header : String → String ⊎ JwtHeader
  pub decode : String → Key → Validation → String ⊎ Claims
  pub from_rsa_components : String → String → Option Key
  pub from_ec_components : String → String → Option Key
  pub from_ed_components : String → Option Key

abbrev pub eq_bytes : List ℕ → List ℕ → Bool
eq_bytes [] [] = true
eq_bytes (x ∷ xs) (y ∷ ys) = num_eq x y && eq_bytes xs ys
eq_bytes _ _ = false

-- `eq_ignore_ascii_case` against a text in lower case
abbrev lower : ℕ → ℕ
lower c = if leb b'A' c && leb c b'Z' then c + 32 else c

abbrev strip_scheme : List ℕ → String → Option String
strip_scheme [] String.[] = none
strip_scheme [] (String.◌∷◌ c s) = some (String.◌∷◌ c s)
strip_scheme (b ∷ bs) String.[] = none
strip_scheme (b ∷ bs) (String.◌∷◌ c s) =
    let rest = strip_scheme bs s in if num_eq (lower (code c)) b then rest else none

unfoldable pub extract_bearer_from_headers : List (String × Option String) → Option String
unfolding bytes
extract_bearer_from_headers headers =
    and_then (lookup "authorization" headers)
      λ header. and_then header λ text. strip_scheme (bytes "bearer ") text
