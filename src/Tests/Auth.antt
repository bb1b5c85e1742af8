-- ===== src/Tests/Auth.antt =====
-- Authentication with a MAC that is the text itself, and one token that is a JWT.
use riley_leaderboards.Prelude.{
  ℕ, ◌*◌, ◌^◌, String, ◌≡◌, refl, ◌↔◌, ◌⊎◌, inl, inr, false, Option, none, some, List, [], ◌∷◌,
  ◌==◌, if◌then◌else◌, bytes,
}
use riley_leaderboards.Auth.{
  AuthMode, hash_token, verify_token, is_read_token, get_key, validate_jwt, require_auth,
  has_write_auth, no_auth, Method, Request, AuthError, Tokens, extract_bearer_from_headers, get,
  post, delete, read_only, stale_cache, es256,
}
use riley_leaderboards.Auth.Keys.{
  JwkEntry, parse_jwk, collect_keys, refresh, new, refresh_round, zero_usable_keys,
}
use riley_leaderboards.Auth.Startup.{AuthConfig, StartError, hash_all, from_config}
use riley_leaderboards.Auth.Writers.{MayWrite, require_auth-write_iff}
use riley_leaderboards.Auth.Opened.{IsBlank, from_config-open}

auth_code : Unit {0}
unfolding bytes extract_bearer_from_headers hash_token verify_token is_read_token get_key
    validate_jwt require_auth has_write_auth parse_jwk collect_keys refresh new refresh_round
    hash_all from_config
auth_code = tt

abbrev plain : Tokens
plain = record {
  Key = String;
  hmac = λ key text. bytes text;
  decode_header = λ token.
      if token == "jwt" then inr (record { alg = es256; kid = some "k1" }) else inl "malformed";
  decode =
      λ token key validation. inr (record { sub = none; roles = some ("reader" ∷ "editor" ∷ []) });
  from_rsa_components = λ n e. some n;
  from_ec_components = λ x y. if x == "bad" then none else some x;
  from_ed_components = λ x. some x;
}

abbrev jwk : String → String → String → JwkEntry
jwk kid kty x = record {
  kid = some kid;
  kty = kty;
  alg = none;
  n = none;
  e = none;
  crv = some "P-256";
  x = some x;
  y = some "y";
}

abbrev resolve_raw : String → String ⊎ String
resolve_raw raw = if raw == "env:MISSING" then inl "MISSING" else inr raw

abbrev blank : AuthConfig
blank = record {
  jwks_url = none;
  required_role = none;
  expected_issuer = none;
  expected_audience = none;
  api_token = none;
  admin_token = none;
  read_tokens = [];
  require_read_auth = false;
}

abbrev jwt_config : AuthConfig
jwt_config = record blank {
  jwks_url = some "https://issuer";
  required_role = some "editor";
  read_tokens = "peek" ∷ [];
}

abbrev send : Method → String → Request
send method token = record { method = method; headers = ("authorization", some token) ∷ [] }

abbrev keys : Option (List JwkEntry)
keys = some (jwk "k1" "EC" "x1" ∷ jwk "k2" "EC" "bad" ∷ [])

abbrev passes : StartError ⊎ AuthMode plain → ℕ → Request → Option (AuthError ⊎ Unit {0})
passes (inl e) now request = none
passes (inr mode) now request = some (require_auth plain mode now request)

jwt_writes :
    passes
      (from_config plain resolve_raw (some jwt_config) 0 keys)
      (10 ^ 9)
      (send post "BEARER jwt")
    ≡ some (inr tt)
unfolding auth_code
jwt_writes = refl

read_token_writes :
    passes (from_config plain resolve_raw (some jwt_config) 0 keys) 1 (send post "Bearer peek")
    ≡ some (inl read_only)
unfolding auth_code
read_token_writes = refl

read_token_reads :
    passes (from_config plain resolve_raw (some jwt_config) 0 keys) 1 (send get "Bearer peek")
    ≡ some (inr tt)
unfolding auth_code
read_token_reads = refl

stale_keys :
    passes
      (from_config plain resolve_raw (some jwt_config) 0 keys)
      (7201 * 10 ^ 9)
      (send post "bearer jwt")
    ≡ some (inl stale_cache)
unfolding auth_code
stale_keys = refl

no_usable_keys :
    from_config plain resolve_raw (some jwt_config) 0 (some (jwk "k2" "EC" "bad" ∷ []))
    ≡ inl (StartError.jwks zero_usable_keys)
unfolding auth_code
no_usable_keys = refl

abbrev admin : AuthMode plain
admin =
    AuthMode.api_token record {
      admin_token_hash = 104 ∷ 105 ∷ [];
      read_token_hashes = [];
      require_read_auth = false;
    }

require_auth-write_iff_example :
    (require_auth plain admin 0 (send delete "Bearer hi") ≡ inr tt)
    ↔ MayWrite plain admin 0 (send delete "Bearer hi")
require_auth-write_iff_example = require_auth-write_iff plain admin 0 (send delete "Bearer hi") refl

admin_writes : require_auth plain admin 0 (send delete "Bearer hi") ≡ inr tt
unfolding auth_code
admin_writes = refl

opened : from_config plain resolve_raw (some blank) 0 none ≡ inr no_auth
unfolding auth_code
opened = refl

from_config-open_example : IsBlank blank
from_config-open_example = from_config-open plain resolve_raw blank 0 none opened
