-- ===== src/Auth/Keys.antt =====
-- crates/riley-leaderboards-api/src/auth.rs: the keys that an issuer publishes, and their refresh.
use riley_leaderboards.Prelude.{
  ℕ, String, ◌⊎◌, inl, inr, Option, none, some, List, [], ◌∷◌, ◌==◌, if◌then◌else◌, and_then,
  is_empty, insert,
}
use riley_leaderboards.Auth.{
  Algorithm, rs256, rs384, rs512, es256, es384, eddsa, Tokens, JwksKey, JwksCache, ◌>>◌, refuse_if,
}

pub record JwkEntry : Type 0 where
  pub kid : Option String
  pub kty : String
  pub alg : Option String
  pub n : Option String
  pub e : Option String
  pub crv : Option String
  pub x : Option String
  pub y : Option String

abbrev pub rsa_algorithm : Option String → Option Algorithm
rsa_algorithm none = some rs256
rsa_algorithm (some alg) =
    if alg == "RS256"
    then some rs256
    else if alg == "RS384"
    then some rs384
    else if alg == "RS512"
    then some rs512
    else none

abbrev pub ec_algorithm : Option String → Option String → Option Algorithm
ec_algorithm (some crv) alg =
    if crv == "P-256" then some es256 else if crv == "P-384" then some es384 else none
ec_algorithm none none = none
ec_algorithm none (some alg) =
    if alg == "ES256" then some es256 else if alg == "ES384" then some es384 else none

-- How `refresh` fails: the request, or an answer without a usable key.
pub data RefreshError : Type 0 where
  request_failed zero_usable_keys : RefreshError

module _ (t : Tokens) where
  abbrev pub with_algorithm : Option t.Key → Option Algorithm → Option (JwksKey t)
  with_algorithm key alg = and_then key λ k. and_then alg λ a. some (k, a)

  abbrev pub rsa_key : JwkEntry → Option (JwksKey t)
  rsa_key jwk =
      and_then jwk.n
        λ n. and_then jwk.e λ e. with_algorithm (t.from_rsa_components n e) (rsa_algorithm jwk.alg)

  abbrev pub ec_key : JwkEntry → Option (JwksKey t)
  ec_key jwk = and_then jwk.x λ x.
      and_then jwk.y λ y. with_algorithm (t.from_ec_components x y) (ec_algorithm jwk.crv jwk.alg)

  abbrev pub ed_key : JwkEntry → Option (JwksKey t)
  ed_key jwk = and_then jwk.x λ x. with_algorithm (t.from_ed_components x) (some eddsa)

  unfoldable pub parse_jwk : JwkEntry → Option (JwksKey t)
  parse_jwk jwk =
      if jwk.kty == "RSA"
      then rsa_key jwk
      else if jwk.kty == "EC"
      then ec_key jwk
      else if jwk.kty == "OKP"
      then ed_key jwk
      else none

  abbrev pub usable : JwkEntry → Option (String × JwksKey t)
  usable jwk = and_then jwk.kid λ kid. and_then (parse_jwk jwk) λ key. some (kid, key)

  abbrev add_usable :
      Option (String × JwksKey t) → List (String × JwksKey t) → List (String × JwksKey t)
  add_usable none keys = keys
  add_usable (some (kid, key)) keys = insert kid key keys

  -- The loop of `refresh`.
  unfoldable pub collect_keys :
      List JwkEntry → List (String × JwksKey t) → List (String × JwksKey t)
  collect_keys [] keys = keys
  collect_keys (jwk ∷ jwks) keys = collect_keys jwks (add_usable (usable jwk) keys)

  -- `answer` is the JSON that the URL gives, or none when the request fails.
  unfoldable pub refresh : JwksCache t → ℕ → Option (List JwkEntry) → RefreshError ⊎ JwksCache t
  refresh cache now none = inl request_failed
  refresh cache now (some jwks) = do
    let new_keys = collect_keys jwks []
    refuse_if (is_empty new_keys) zero_usable_keys
    inr (record cache { keys = new_keys; last_refresh = now })

  -- `new`: an empty cache that is refreshed.
  unfoldable pub new : String → ℕ → Option (List JwkEntry) → RefreshError ⊎ JwksCache t
  new url now answer = refresh (record { url = url; keys = []; last_refresh = now }) now answer

  -- A round of `spawn_refresh_task`: a failed refresh leaves the cache as it is.
  abbrev pub kept : JwksCache t → RefreshError ⊎ JwksCache t → JwksCache t
  kept cache (inl e) = cache
  kept cache (inr fresh) = fresh

  unfoldable pub refresh_round : JwksCache t → ℕ → Option (List JwkEntry) → JwksCache t
  refresh_round cache now answer = kept cache (refresh cache now answer)
