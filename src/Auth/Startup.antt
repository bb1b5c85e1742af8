-- ===== src/Auth/Startup.antt =====
-- crates/riley-leaderboards-api/src/auth.rs: the mode of authentication that a configuration gives.
use riley_leaderboards.Prelude.{
  ℕ, String, ◌⊎◌, inl, inr, Bool, not, ◌||◌, Option, none, some, List, [], ◌∷◌, is_some, is_empty,
}
use riley_leaderboards.Auth.{Tokens, AuthMode, no_auth, hash_token, ◌>>=◌, ◌>>◌, refuse_if, map_err}
use riley_leaderboards.Auth.Keys.{JwkEntry, RefreshError, new}

-- The tokens are the raw texts of the `ConfigValue`s.
pub record AuthConfig : Type 0 where
  pub jwks_url : Option String
  pub required_role : Option String
  pub expected_issuer : Option String
  pub expected_audience : Option String
  pub api_token : Option String
  pub admin_token : Option String
  pub read_tokens : List String
  pub require_read_auth : Bool

pub data StartError : Type 0 where
  token_and_alias jwks_and_token no_mechanism : StartError
  unresolved : String → StartError
  jwks : RefreshError → StartError

abbrev pub admin_or_api_token : Option String → Option String → StartError ⊎ Option String
admin_or_api_token (some _) (some _) = inl token_and_alias
admin_or_api_token (some token) none = inr (some token)
admin_or_api_token none (some token) = inr (some token)
admin_or_api_token none none = inr none

-- `resolve` is `ConfigValue::resolve`, with the environment of the process.
module _ (t : Tokens) (resolve : String → String ⊎ String) where
  unfoldable pub hash_all : List String → StartError ⊎ List (List ℕ)
  hash_all [] = inr []
  hash_all (token ∷ tokens) = do
    resolved ← map_err unresolved (resolve token)
    hashes ← hash_all tokens
    inr (hash_token t resolved ∷ hashes)

  -- The last match of `from_config`; `now` and `answer` are the first fetch of the keys.
  abbrev pub choose_mode :
      AuthConfig
      → List (List ℕ)
      → ℕ
      → Option (List JwkEntry)
      → Option String
      → Option String
      → StartError ⊎ AuthMode t
  choose_mode auth hashes now answer (some _) (some _) = inl jwks_and_token
  choose_mode auth hashes now answer (some url) none = do
    cache ← map_err StartError.jwks (new t url now answer)
    inr (
        AuthMode.jwt record {
          jwks_cache = cache;
          required_role = auth.required_role;
          expected_issuer = auth.expected_issuer;
          expected_audience = auth.expected_audience;
          read_token_hashes = hashes;
          require_read_auth = auth.require_read_auth;
        })
  choose_mode auth hashes now answer none (some val) = do
    token ← map_err unresolved (resolve val)
    inr (
        AuthMode.api_token record {
          admin_token_hash = hash_token t token;
          read_token_hashes = hashes;
          require_read_auth = auth.require_read_auth;
        })
  choose_mode auth hashes now answer none none = do
    refuse_if (not (is_empty hashes) || auth.require_read_auth || is_some auth.required_role)
        no_mechanism
    inr no_auth

  unfoldable pub from_config :
      Option AuthConfig → ℕ → Option (List JwkEntry) → StartError ⊎ AuthMode t
  from_config none now answer = inr no_auth
  from_config (some auth) now answer = do
    token ← admin_or_api_token auth.admin_token auth.api_token
    hashes ← hash_all auth.read_tokens
    choose_mode auth hashes now answer auth.jwks_url token
