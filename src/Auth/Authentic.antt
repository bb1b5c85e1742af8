-- ===== src/Auth/Authentic.antt =====
-- What `validate_jwt` of crates/riley-leaderboards-api/src/auth.rs accepts.
use mathlib.Core.Option.{some-injective}
use riley_leaderboards.Prelude.{
  ℕ, ◌-◌, ◌/◌, ◌^◌, ◌≤◌, String, ◌≡◌, refl, ap, ◌∙◌, ◌↔◌, ◌⊎◌, inl, inr, Bool, true, false, not,
  Option, none, some, List, [], ◌∷◌, arith, ◌==◌, eq_iff, ltb, num_eq_iff, Bool-cases, not-eq-false,
  any, In, lookup,
}
use riley_leaderboards.Auth.{
  has_role, check_role, JwksKey, JwksCache, get_key, validation, validate_jwt, ◌>>=◌, refuse_if,
  ok_or, map_err, Algorithm, eq_algorithm, JwtHeader, Claims, Tokens, eq_bytes, missing_kid,
  unknown_key, algorithm_mismatch, insufficient, invalid_jwt, jwt_failed, rs256, rs384, rs512,
  es256, es384, eddsa, other_algorithm,
}

pub bind-eq-inr :
    {E A B : Type 0} (r : E ⊎ A) (rest : A → E ⊎ B) {b : B}
    → (r >>= rest) ≡ inr b
    → (a : A) × (r ≡ inr a) × (rest a ≡ inr b)
bind-eq-inr (inl e) rest h = cc
bind-eq-inr (inr a) rest h = (a, refl, h)

pub refuse_if-eq-inr :
    {E : Type 0} (b : Bool) (e : E) {u : Unit {0}} → refuse_if b e ≡ inr u → b ≡ false
refuse_if-eq-inr true e h = cc
refuse_if-eq-inr false e h = refl

pub ok_or-eq-inr : {E A : Type 0} (o : Option A) (e : E) {a : A} → ok_or o e ≡ inr a → o ≡ some a
ok_or-eq-inr none e h = cc
ok_or-eq-inr (some b) e h = cc

inr_part : {E A : Type 0} → A → E ⊎ A → A
inr_part d (inl e) = d
inr_part d (inr a) = a

pub inr-injective : {E A : Type 0} {a b : A} → ◌≡◌ {A = E ⊎ A} (inr a) (inr b) → a ≡ b
unfolding inr_part
inr-injective {a} h = ap (inr_part a) h

pub map_err-eq-inr :
    {E F A : Type 0} (f : E → F) (r : E ⊎ A) {a : A} → map_err f r ≡ inr a → r ≡ inr a
map_err-eq-inr f (inl e) h = cc
map_err-eq-inr f (inr b) h = cc

pub eq_bytes_iff : (xs ys : List ℕ) → (eq_bytes xs ys ≡ true) ↔ (xs ≡ ys)
eq_bytes_iff [] [] = ground arith
eq_bytes_iff [] (y ∷ ys) = ground arith
eq_bytes_iff (x ∷ xs) [] = ground arith
eq_bytes_iff (x ∷ xs) (y ∷ ys) = ground (arith, num_eq_iff x y, eq_bytes_iff xs ys)

eq_algorithm_sound : (a b : Algorithm) → eq_algorithm a b ≡ true → a ≡ b
eq_algorithm_sound rs256 rs256 h = refl
eq_algorithm_sound rs384 rs384 h = refl
eq_algorithm_sound rs512 rs512 h = refl
eq_algorithm_sound es256 es256 h = refl
eq_algorithm_sound es384 es384 h = refl
eq_algorithm_sound eddsa eddsa h = refl
eq_algorithm_sound other_algorithm other_algorithm h = refl
eq_algorithm_sound _ _ h = cc

eq_algorithm_self : (a : Algorithm) → eq_algorithm a a ≡ true
eq_algorithm_self rs256 = refl
eq_algorithm_self rs384 = refl
eq_algorithm_self rs512 = refl
eq_algorithm_self es256 = refl
eq_algorithm_self es384 = refl
eq_algorithm_self eddsa = refl
eq_algorithm_self other_algorithm = refl

-- The role of the configuration, if one is given, stands among those of the claims.
abbrev pub HasRole : Option String → Claims → Type 0
HasRole none claims = Unit
HasRole (some role) claims = (roles : List String) × (claims.roles ≡ some roles) × In role roles

any_iff :
    (role : String) (roles : List String) → (any (λ r. r == role) roles ≡ true) ↔ In role roles
any_iff role [] = ground arith
any_iff role (r ∷ roles) = ground (arith, any_iff role roles, eq_iff r role)

has_role_iff :
    (role : String) (o : Option (List String))
    → (has_role role o ≡ true) ↔ ((roles : List String) × (o ≡ some roles) × In role roles)
has_role_iff role none = (λ h. cc, λ h. absurd (let e : none ≡ some h.0 = h.1 in cc))
has_role_iff role (some roles) = (
  λ h. (roles, refl, (any_iff role roles).0 h),
  λ h. (any_iff role roles).1 (let e : roles ≡ h.0 = some-injective _ _ h.1 in rw e h.2),
)

check_role_iff :
    (role : Option String) (claims : Claims)
    → (check_role role claims ≡ inr tt) ↔ HasRole role claims
check_role_iff none claims = (λ h. tt, λ h. refl)
check_role_iff (some role) claims = (
  λ h. (has_role_iff role claims.roles).0 (not-eq-false _ (refuse_if-eq-inr _ _ h)),
  λ h. ap (λ b. refuse_if (not b) insufficient) ((has_role_iff role claims.roles).1 h),
)

module _ (t : Tokens) where
  -- The token is a JWT of a key that the cache holds and has refreshed in the last two hours
  -- (and less than a second), by the algorithm of that key, with the role.
  pub record IsAuthentic (cache : JwksCache t) (now : ℕ) (token : String)
      (role issuer audience : Option String) : Type 0 where
    pub header : JwtHeader
    pub decoded : t.decode_header token ≡ inr header
    pub kid : String
    pub named : header.kid ≡ some kid
    pub fresh : (now - cache.last_refresh) / 10 ^ 9 ≤ 7200
    pub key : JwksKey t
    pub known : lookup kid cache.keys ≡ some key
    pub same : header.alg ≡ key.1
    pub claims : Claims
    pub checked : t.decode token key.0 (validation t key.1 issuer audience) ≡ inr claims
    pub permitted : HasRole role claims

  get_key_iff :
      (cache : JwksCache t) (now : ℕ) (kid : String) (found : Option (JwksKey t))
      → (get_key t cache now kid ≡ inr found)
        ↔ (((now - cache.last_refresh) / 10 ^ 9 ≤ 7200) × (lookup kid cache.keys ≡ found))
  unfolding get_key
  get_key_iff cache now kid found =
      let elapsed = (now - cache.last_refresh) / 10 ^ 9 in
      elim (Bool-cases (ltb 7200 elapsed)) [
        | inl e ↦ rw e (λ h. cc, λ h. absurd (let fresh = h.0 in ground (arith, fresh, e)))
        | inr e ↦ rw e (λ h. (ground (arith, e), inr-injective h), λ h. ap inr h.1)
      ]

  pub validate_jwt-IsAuthentic :
      (cache : JwksCache t) (now : ℕ) (token : String) (role issuer audience : Option String)
      → validate_jwt t cache now token role issuer audience ≡ inr tt
      → IsAuthentic cache now token role issuer audience
  unfolding validate_jwt get_key
  validate_jwt-IsAuthentic cache now token role issuer audience h =
      let (header, decoded, h) = bind-eq-inr (map_err invalid_jwt (t.decode_header token)) _ h in
      let (kid, named, h) = bind-eq-inr (ok_or header.kid missing_kid) _ h in
      let (found, got, h) = bind-eq-inr (get_key t cache now kid) _ h in
      let (entry, is_found, h) = bind-eq-inr (ok_or found unknown_key) _ h in
      let (_, same, h) =
        bind-eq-inr (refuse_if (not (eq_algorithm header.alg entry.1)) algorithm_mismatch) _ h in
      let (claims, checked, h) =
        bind-eq-inr
          (map_err jwt_failed (t.decode token entry.0 (validation t entry.1 issuer audience))) _
          h in
      let (fresh, known) = (get_key_iff cache now kid found).0 got in
      record {
        header = header;
        decoded = map_err-eq-inr _ _ decoded;
        kid = kid;
        named = ok_or-eq-inr _ _ named;
        fresh = fresh;
        key = entry;
        known = known ∙ ok_or-eq-inr _ _ is_found;
        same = eq_algorithm_sound _ _ (not-eq-false _ (refuse_if-eq-inr _ _ same));
        claims = claims;
        checked = map_err-eq-inr _ _ checked;
        permitted = (check_role_iff role claims).0 h;
      }

  pub IsAuthentic-validate_jwt :
      (cache : JwksCache t) (now : ℕ) (token : String) (role issuer audience : Option String)
      → IsAuthentic cache now token role issuer audience
      → validate_jwt t cache now token role issuer audience ≡ inr tt
  unfolding validate_jwt get_key
  IsAuthentic-validate_jwt cache now token role issuer audience a =
      let got = (get_key_iff cache now a.kid (some a.key)).1 (a.fresh, a.known) in
      rw (a.decoded, a.named, got, a.same, eq_algorithm_self a.key.1, a.checked)
        ((check_role_iff role a.claims).1 a.permitted)
