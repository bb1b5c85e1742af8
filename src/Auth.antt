-- ===== src/Auth.antt =====
-- crates/riley-leaderboards-api/src/auth.rs: who may call the API.
mod Requests
pub mod Keys
pub mod Startup
pub mod Authentic
pub mod Writers
pub mod Opened
unfoldable pub use Requests.*
use riley_leaderboards.Prelude.{
  ℕ, ◌-◌, ◌*◌, ◌/◌, ◌^◌, String, ◌⊎◌, inl, inr, Bool, true, false, not, ◌&&◌, Option, none, some,
  List, map, ◌==◌, ltb, if◌then◌else◌, is_some, any, bytes, lookup,
}

abbrev pub has_role : String → Option (List String) → Bool
has_role role none = false
has_role role (some roles) = any (λ r. r == role) roles

abbrev pub check_role : Option String → Claims → AuthError ⊎ Unit {0}
check_role none claims = inr tt
check_role (some role) claims = refuse_if (not (has_role role claims.roles)) insufficient

-- `Instant`s are nanoseconds; `keys` is the map, one row for each key.
module _ (t : Tokens) where
  abbrev pub JwksKey : Type 0
  JwksKey = t.Key × Algorithm

  pub record JwksCache : Type 0 where
    pub url : String
    pub keys : List (String × JwksKey)
    pub last_refresh : ℕ

  pub record JwtMode : Type 0 where
    pub jwks_cache : JwksCache
    pub required_role : Option String
    pub expected_issuer : Option String
    pub expected_audience : Option String
    pub read_token_hashes : List (List ℕ)
    pub require_read_auth : Bool

  pub record ApiTokenMode : Type 0 where
    pub admin_token_hash : List ℕ
    pub read_token_hashes : List (List ℕ)
    pub require_read_auth : Bool

  pub data AuthMode : Type 0 where
    no_auth : AuthMode
    jwt : JwtMode → AuthMode
    api_token : ApiTokenMode → AuthMode

  unfoldable pub hash_token : String → List ℕ
  hash_token token = t.hmac "riley-leaderboards-api-token" token

  -- `verify_slice` accepts the bytes of the MAC and no others.
  unfoldable pub verify_token : String → List ℕ → Bool
  verify_token incoming expected =
      eq_bytes (t.hmac "riley-leaderboards-api-token" incoming) expected

  unfoldable pub is_read_token : String → List (List ℕ) → Bool
  is_read_token incoming hashes = any (λ hash. verify_token incoming hash) hashes

  abbrev pub jwks_max_stale_secs : ℕ
  jwks_max_stale_secs = 7200

  -- `elapsed` stops at 0, and `as_secs` rounds down.
  unfoldable pub get_key : JwksCache → ℕ → String → AuthError ⊎ Option JwksKey
  get_key cache now kid =
      let elapsed = (now - cache.last_refresh) / 10 ^ 9 in
      if ltb jwks_max_stale_secs elapsed then inl stale_cache else inr (lookup kid cache.keys)

  abbrev pub validation : Algorithm → Option String → Option String → Validation
  validation alg expected_issuer expected_audience = record {
    algorithm = alg;
    validate_exp = true;
    validate_nbf = true;
    issuer = expected_issuer;
    audience = expected_audience;
    validate_aud = is_some expected_audience;
  }

  unfoldable pub validate_jwt :
      JwksCache → ℕ → String → Option String → Option String → Option String → AuthError ⊎ Unit {0}
  validate_jwt cache now token required_role expected_issuer expected_audience = do
    header ← map_err invalid_jwt (t.decode_header token)
    kid ← ok_or header.kid missing_kid
    found ← get_key cache now kid
    entry ← ok_or found unknown_key
    refuse_if (not (eq_algorithm header.alg entry.1)) algorithm_mismatch
    claims ←
        map_err jwt_failed
          (t.decode token entry.0 (validation entry.1 expected_issuer expected_audience))
    check_role required_role claims

  abbrev pub check_api_token : ApiTokenMode → Bool → String → AuthError ⊎ Unit {0}
  check_api_token m read token =
      if verify_token token m.admin_token_hash
      then inr tt
      else if read && is_read_token token m.read_token_hashes
      then inr tt
      else if not read && is_read_token token m.read_token_hashes
      then inl read_only
      else inl (if read then invalid_token else admin_required)

  abbrev pub check_jwt : JwtMode → ℕ → Bool → String → AuthError ⊎ Unit {0}
  check_jwt m now read token =
      if read && is_read_token token m.read_token_hashes
      then inr tt
      else if not read && is_read_token token m.read_token_hashes
      then inl read_only
      else validate_jwt m.jwks_cache now token (if read then none else m.required_role)
          m.expected_issuer m.expected_audience

  -- The middleware: `inr tt` runs the request.
  unfoldable pub require_auth : AuthMode → ℕ → Request → AuthError ⊎ Unit {0}
  require_auth no_auth now request = inr tt
  require_auth (api_token m) now request =
      if is_read request.method && not m.require_read_auth then inr tt else do
        token ← ok_or (extract_bearer_from_headers request.headers) no_bearer
        check_api_token m (is_read request.method) token
  require_auth (jwt m) now request =
      if is_read request.method && not m.require_read_auth then inr tt else do
        token ← ok_or (extract_bearer_from_headers request.headers) no_bearer
        check_jwt m now (is_read request.method) token

  -- The upgrade of a connection, which is a read, asks this before it takes scores.
  unfoldable pub has_write_auth : AuthMode → ℕ → List (String × Option String) → Bool
  has_write_auth no_auth now headers = true
  has_write_auth (api_token m) now headers =
      is_some_and (λ token. verify_token token m.admin_token_hash)
        (extract_bearer_from_headers headers)
  has_write_auth (jwt m) now headers =
      is_some_and
        (λ token. is_right (
          validate_jwt m.jwks_cache now token m.required_role m.expected_issuer
            m.expected_audience))
        (extract_bearer_from_headers headers)
