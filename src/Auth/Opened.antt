-- ===== src/Auth/Opened.antt =====
-- When `from_config` of crates/riley-leaderboards-api/src/auth.rs leaves the API open.
use riley_leaderboards.Prelude.{
  ℕ, String, ◌≡◌, refl, ap, ◌∙◌, ◌⊎◌, inr, Bool, true, false, not, ◌||◌, Option, none, some, List,
  [], ◌∷◌, arith, is_some, is_empty,
}
use riley_leaderboards.Auth.{no_auth, refuse_if, map_err, Tokens}
use riley_leaderboards.Auth.Keys.{JwkEntry, new}
use riley_leaderboards.Auth.Startup.{
  AuthConfig, StartError, admin_or_api_token, hash_all, choose_mode, from_config, no_mechanism,
  unresolved,
}
use riley_leaderboards.Auth.Authentic.{bind-eq-inr, refuse_if-eq-inr, inr-injective}

-- No field that asks for authentication is set.
pub record IsBlank (auth : AuthConfig) : Type 0 where
  pub admin_token : auth.admin_token ≡ none
  pub api_token : auth.api_token ≡ none
  pub jwks_url : auth.jwks_url ≡ none
  pub read_tokens : auth.read_tokens ≡ []
  pub require_read_auth : auth.require_read_auth ≡ false
  pub required_role : auth.required_role ≡ none

admin_or_api_token-eq-none :
    (a b : Option String) → admin_or_api_token a b ≡ inr none → (a ≡ none) × (b ≡ none)
admin_or_api_token-eq-none (some a) (some b) h = cc
admin_or_api_token-eq-none (some a) none h = let e = inr-injective h in cc
admin_or_api_token-eq-none none (some b) h = let e = inr-injective h in cc
admin_or_api_token-eq-none none none h = (refl, refl)

all_false : (a b c : Bool) → (not a || b || c) ≡ false → (a ≡ true) × (b ≡ false) × (c ≡ false)
all_false a b c h = ground (arith, h)

is_some-false : (o : Option String) → is_some o ≡ false → o ≡ none
is_some-false none h = refl
is_some-false (some a) h = cc

module _ (t : Tokens) (resolve : String → String ⊎ String) where
  hash_all-eq-nil :
      (tokens : List String) (hashes : List (List ℕ))
      → hash_all t resolve tokens ≡ inr hashes
      → is_empty hashes ≡ true
      → tokens ≡ []
  unfolding hash_all
  hash_all-eq-nil [] hashes h e = refl
  hash_all-eq-nil (token ∷ tokens) hashes h e =
      let (resolved, _, h) = bind-eq-inr (map_err unresolved (resolve token)) _ h in
      let (rest, _, h) = bind-eq-inr (hash_all t resolve tokens) _ h in
      let same = ap is_empty (inr-injective h) in absurd (ground (arith, same, e))

  choose_mode-eq-no_auth :
      (auth : AuthConfig) (hashes : List (List ℕ)) (now : ℕ) (answer : Option (List JwkEntry))
      (url token : Option String)
      → choose_mode t resolve auth hashes now answer url token ≡ inr no_auth
      → (url ≡ none)
        × (token ≡ none)
        × (is_empty hashes ≡ true)
        × (auth.require_read_auth ≡ false)
        × (auth.required_role ≡ none)
  choose_mode-eq-no_auth auth hashes now answer (some url) (some token) h = cc
  choose_mode-eq-no_auth auth hashes now answer (some url) none h =
      let (cache, _, h) = bind-eq-inr (map_err StartError.jwks (new t url now answer)) _ h in
      let mode = inr-injective h in cc
  choose_mode-eq-no_auth auth hashes now answer none (some token) h =
      let (secret, _, h) = bind-eq-inr (map_err unresolved (resolve token)) _ h in
      let mode = inr-injective h in cc
  choose_mode-eq-no_auth auth hashes now answer none none h =
      let (_, blank, _) =
        bind-eq-inr
          (refuse_if (not (is_empty hashes) || auth.require_read_auth || is_some auth.required_role)
            no_mechanism)
          _ h in
      let (empty, reads, role) = all_false _ _ _ (refuse_if-eq-inr _ _ blank) in
      (refl, refl, empty, reads, is_some-false _ role)

  -- A configuration with an `auth` section opens the API only when the section sets none of
  -- the admin token, its alias, the address of the keys, read-only tokens, a role, or the
  -- authentication of reads.
  pub from_config-open :
      (auth : AuthConfig) (now : ℕ) (answer : Option (List JwkEntry))
      → from_config t resolve (some auth) now answer ≡ inr no_auth
      → IsBlank auth
  unfolding from_config
  from_config-open auth now answer h =
      let (token, chosen, h) =
        bind-eq-inr (admin_or_api_token auth.admin_token auth.api_token) _ h in
      let (hashes, hashed, h) = bind-eq-inr (hash_all t resolve auth.read_tokens) _ h in
      let (url, no_token, empty, reads, role) =
        choose_mode-eq-no_auth auth hashes now answer auth.jwks_url token h in
      let (admin, api) =
        admin_or_api_token-eq-none auth.admin_token auth.api_token (chosen ∙ ap inr no_token) in
      record {
        admin_token = admin;
        api_token = api;
        jwks_url = url;
        read_tokens = hash_all-eq-nil auth.read_tokens hashes hashed empty;
        require_read_auth = reads;
        required_role = role;
      }
