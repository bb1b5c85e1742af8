-- ===== src/Auth/Writers.antt =====
-- Who may write, by the middleware of crates/riley-leaderboards-api/src/auth.rs.
use mathlib.Core.Option.{some-injective}
use riley_leaderboards.Prelude.{
  ℕ, String, ◌≡◌, refl, ap, ◌∙◌, ◌≢◌, ◌↔◌, ◌⊎◌, inl, inr, Bool, true, false, Option, none, some,
  List, [], ◌∷◌, arith, if◌then◌else◌, Bool-cases, All,
}
use riley_leaderboards.Auth.{
  JwtMode, ApiTokenMode, AuthMode, hash_token, verify_token, is_read_token, validate_jwt,
  check_api_token, check_jwt, require_auth, no_auth, jwt, api_token, ◌>>=◌, ok_or, is_read, Request,
  Tokens, extract_bearer_from_headers, no_bearer, read_only,
}
use riley_leaderboards.Auth.Authentic.{
  eq_bytes_iff, IsAuthentic, validate_jwt-IsAuthentic, IsAuthentic-validate_jwt,
}

-- A chain whose first step reads a text, and one whose first step refuses a test.
ok_or-bind_iff :
    {E A B : Type 0} (o : Option A) (e : E) (rest : A → E ⊎ B) (b : B)
    → ((ok_or o e >>= rest) ≡ inr b) ↔ ((a : A) × (o ≡ some a) × (rest a ≡ inr b))
ok_or-bind_iff none e rest b = (λ h. cc, λ h. absurd (let q : none ≡ some h.0 = h.1 in cc))
ok_or-bind_iff (some a) e rest b =
    (λ h. (a, refl, h), λ h. ap rest (some-injective a h.0 h.1) ∙ h.2)

refused_iff :
    {E B : Type 0} (c : Bool) (e : E) (r : E ⊎ B) (b : B)
    → ((if c then inl e else r) ≡ inr b) ↔ ((c ≡ false) × (r ≡ inr b))
refused_iff true e r b = (λ h. cc, λ h. cc)
refused_iff false e r b = (λ h. (refl, h), λ h. h.1)

module _ (t : Tokens) where
  abbrev pub Bears : Request → String → Type 0
  Bears request token = extract_bearer_from_headers request.headers ≡ some token

  -- What a write has to show: nothing without authentication, the admin token, or a JWT with
  -- the role that is none of the read-only tokens.
  pub MayWrite : AuthMode t → ℕ → Request → Type 0
  MayWrite no_auth now request = Unit
  MayWrite (api_token m) now request =
      (token : String) × Bears request token × (hash_token t token ≡ m.admin_token_hash)
  MayWrite (jwt m) now request =
      (token : String) × Bears request token
      × All (λ hash. hash_token t token ≢ hash) m.read_token_hashes
      × IsAuthentic t m.jwks_cache now token m.required_role m.expected_issuer m.expected_audience

  verify_token_iff :
      (token : String) (hash : List ℕ)
      → (verify_token t token hash ≡ true) ↔ (hash_token t token ≡ hash)
  unfolding verify_token hash_token
  verify_token_iff token hash = eq_bytes_iff _ hash

  is_read_token_iff :
      (token : String) (hashes : List (List ℕ))
      → (is_read_token t token hashes ≡ false) ↔ All (λ hash. hash_token t token ≢ hash) hashes
  unfolding is_read_token
  is_read_token_iff token [] = (λ h. tt, λ h. refl)
  is_read_token_iff token (hash ∷ hashes) =
      ground (arith, verify_token_iff token hash, is_read_token_iff token hashes)

  check_api_token-write_iff :
      (m : ApiTokenMode t) (token : String)
      → (check_api_token t m false token ≡ inr tt) ↔ (hash_token t token ≡ m.admin_token_hash)
  check_api_token-write_iff m token =
      let same = verify_token_iff token m.admin_token_hash in
      elim (Bool-cases (verify_token t token m.admin_token_hash)) [
        | inl e ↦ rw e (λ _. same.0 e, λ _. refl)
        | inr e ↦ elim (Bool-cases (is_read_token t token m.read_token_hashes)) [
          | inl r ↦ rw (e, r) (λ h. cc, λ h. let e' = same.1 h in cc)
          | inr r ↦ rw (e, r) (λ h. cc, λ h. let e' = same.1 h in cc)
        ]
      ]

  check_jwt-write_iff :
      (m : JwtMode t) (now : ℕ) (token : String)
      → (check_jwt t m now false token ≡ inr tt) ↔ (
          All (λ hash. hash_token t token ≢ hash) m.read_token_hashes
          × IsAuthentic t m.jwks_cache now token m.required_role m.expected_issuer
              m.expected_audience)
  check_jwt-write_iff m now token =
      let gate =
        refused_iff (is_read_token t token m.read_token_hashes) read_only
          (validate_jwt t m.jwks_cache now token m.required_role m.expected_issuer
            m.expected_audience)
          tt in
      let other = is_read_token_iff token m.read_token_hashes in
      (
        λ h. let (r, v) = gate.0 h in (other.0 r, validate_jwt-IsAuthentic t _ _ _ _ _ _ v),
        λ h. gate.1 (other.1 h.0, IsAuthentic-validate_jwt t _ _ _ _ _ _ h.1),
      )

  -- A request with a method that writes passes the middleware exactly when it shows what
  -- `MayWrite` asks of it.
  pub require_auth-write_iff :
      (mode : AuthMode t) (now : ℕ) (request : Request)
      → is_read request.method ≡ false
      → (require_auth t mode now request ≡ inr tt) ↔ MayWrite mode now request
  unfolding require_auth MayWrite
  require_auth-write_iff no_auth now request h = (λ _. tt, λ _. refl)
  require_auth-write_iff (api_token m) now request h =
      let chain =
        ok_or-bind_iff (extract_bearer_from_headers request.headers) no_bearer
          (check_api_token t m false) tt in
      rw h (
        λ p.
            let (token, bears, q) = chain.0 p in
            (token, bears, (check_api_token-write_iff m token).0 q),
        λ p. chain.1 (p.0, p.1, (check_api_token-write_iff m p.0).1 p.2),
      )
  require_auth-write_iff (jwt m) now request h =
      let chain =
        ok_or-bind_iff (extract_bearer_from_headers request.headers) no_bearer
          (check_jwt t m now false) tt in
      rw h (
        λ p.
            let (token, bears, q) = chain.0 p in
            let k = (check_jwt-write_iff m now token).0 q in (token, bears, k.0, k.1),
        λ p. chain.1 (p.0, p.1, (check_jwt-write_iff m now p.0).1 (p.2, p.3)),
      )
