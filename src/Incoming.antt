-- ===== src/Incoming.antt =====
-- crates/riley-leaderboards-api/src/routes/webhooks.rs: pushes that GitHub reports. The MAC, the hex
-- and JSON decoders and the git commands are arguments.
pub mod Trusted
use Prim.Native.Char.{code}
use Prim.Native.String.{◌++◌ as append}
use riley_leaderboards.Prelude.{
  ℕ, String, ◌⊎◌, inl, inr, Bool, not, Option, none, some, List, [], ◌∷◌, ◌++◌, ◌==◌, num_eq,
  if◌then◌else◌, unwrap_or, and_then, any, option_list, bytes, lookup,
}
use riley_leaderboards.Models.{Error}
use riley_leaderboards.Models.Json.{Json}
use riley_leaderboards.Auth.{◌>>=◌, ◌>>◌, refuse_if, ok_or, map_err, eq_bytes}
use riley_leaderboards.Webhooks.{WebhookEvent, version_created, board_created}
use riley_leaderboards.Sync.{SyncAction, BoardSyncResult, created, updated}

-- The secret is the raw text of the `ConfigValue`.
pub record SyncConfig : Type 0 where
  pub webhook_secret : Option String
  pub repo_path : Option String
  pub sync_branch : Option String

-- The answers that start no synchronisation.
pub data Reply : Type 0 where
  processing_failed : Reply
  missing_signature bad_signature_header invalid_signature : Reply
  missing_event bad_event_header : Reply
  pong event_ignored branch_ignored : Reply
  invalid_json missing_ref : Reply

abbrev pub status : Reply → ℕ
status processing_failed = 500
status missing_signature = 400
status bad_signature_header = 400
status invalid_signature = 401
status missing_event = 400
status bad_event_header = 400
status pong = 200
status event_ignored = 200
status branch_ignored = 200
status invalid_json = 400
status missing_ref = 400

-- What is queued, with the answer 202.
pub record Job : Type 0 where
  pub repo_path : String
  pub branch : String
  pub note : Option String

-- HMAC-SHA256 with a key, over the body; the hex decoder; and `serde_json::from_slice`.
pub record Decoders (json : Json) : Type 0 where
  pub hmac : String → List ℕ → List ℕ
  pub hex_decode : String → Option (List ℕ)
  pub from_slice : List ℕ → Option json.Value

-- `strip_prefix`
unfoldable pub strip_prefix : String → String → Option String
strip_prefix s String.[] = some s
strip_prefix String.[] (String.◌∷◌ d p) = none
strip_prefix (String.◌∷◌ c s) (String.◌∷◌ d p) =
    let rest = strip_prefix s p in if num_eq (code c) (code d) then rest else none

-- A header that has to be there and to be text.
abbrev pub header : String → Reply → Reply → List (String × Option String) → Reply ⊎ String
header name absent_reply bad headers = do
  val ← ok_or (lookup name headers) absent_reply
  ok_or val bad

abbrev pub check_event : String → Reply ⊎ Unit {0}
check_event event =
    if event == "push" then inr tt else if event == "ping" then inl pong else inl event_ignored

module _ (json : Json) (decoders : Decoders json) where
  abbrev pub has_mac : String → List ℕ → String → Bool
  has_mac secret body hex =
      any (λ bytes. eq_bytes (decoders.hmac secret body) bytes)
        (option_list (decoders.hex_decode hex))

  unfoldable pub verify_signature : String → List ℕ → String → Bool
  unfolding strip_prefix
  verify_signature secret body signature =
      any (has_mac secret body) (option_list (strip_prefix signature "sha256="))

  abbrev pub text_at : json.Value → String → Option String
  text_at payload key = and_then (json.get payload key) json.as_str

  abbrev pub commit_message : json.Value → Option String
  commit_message payload =
      and_then (json.get payload "head_commit") λ commit. text_at commit "message"

  -- `resolve_value` is `ConfigValue::resolve`; `inr` spawns the job.
  unfoldable pub github :
      (String → Option String)
      → Option SyncConfig
      → List (String × Option String)
      → List ℕ
      → Reply ⊎ Job
  github resolve_value settings headers body = do
    raw ← ok_or (and_then settings λ c. c.webhook_secret) processing_failed
    secret ← ok_or (resolve_value raw) processing_failed
    repo_path ← ok_or (and_then settings λ c. c.repo_path) processing_failed
    signature ← header "x-hub-signature-256" missing_signature bad_signature_header headers
    refuse_if (not (verify_signature secret body signature)) invalid_signature
    event ← header "x-github-event" missing_event bad_event_header headers
    check_event event
    payload ← ok_or (decoders.from_slice body) invalid_json
    let branch = unwrap_or (and_then settings λ c. c.sync_branch) "main"
    push_ref ← ok_or (text_at payload "ref") missing_ref
    refuse_if (not (push_ref == append "refs/heads/" branch)) branch_ignored
    inr record { repo_path = repo_path; branch = branch; note = commit_message payload }

-- How a git command ends: the branches of the match in `run_sync`.
pub data GitResult : Type 0 where
  success failure not_started timed_out : GitResult

pub data RunError : Type 0 where
  git_failed : GitResult → RunError
  sync_failed : Error → RunError

abbrev pub check_git : GitResult → RunError ⊎ Unit {0}
check_git success = inr tt
check_git failure = inl (git_failed failure)
check_git not_started = inl (git_failed not_started)
check_git timed_out = inl (git_failed timed_out)

-- An outbound webhook: the event, the board, and the version where there is one.
pub record Announcement : Type 0 where
  pub event : WebhookEvent
  pub slug : String
  pub name : String
  pub version : Option (ℕ × Option String)

abbrev pub announce_version : Option String → BoardSyncResult → ℕ → Announcement
announce_version note r n = record {
  event = version_created;
  slug = r.slug;
  name = r.name;
  version = some (n, note);
}

abbrev pub announce_board : BoardSyncResult → Announcement
announce_board r = record { event = board_created; slug = r.slug; name = r.name; version = none }

abbrev pub announcements_of : Option String → BoardSyncResult → SyncAction → List Announcement
announcements_of note r (created n) = announce_board r ∷ announce_version note r n ∷ []
announcements_of note r (updated n) = announce_version note r n ∷ []
announcements_of _ r _ = []

-- The loop over the results.
unfoldable pub announcements : Option String → List BoardSyncResult → List Announcement
announcements _ [] = []
announcements note (r ∷ rs) = announcements_of note r r.action ++ announcements note rs

abbrev pub synced : Option String → Error ⊎ List BoardSyncResult → RunError ⊎ List Announcement
synced _ (inl e) = inl (sync_failed e)
synced note (inr rs) = inr (announcements note rs)

-- The git commands by their arguments, and what `sync_dir` comes back with.
unfoldable pub run_sync :
    (List String → GitResult)
    → (Option String → Error ⊎ List BoardSyncResult)
    → Job
    → RunError ⊎ List Announcement
run_sync git sync_dir job = do
  check_git (git ("-C" ∷ job.repo_path ∷ "fetch" ∷ "origin" ∷ job.branch ∷ []))
  check_git (git ("-C" ∷ job.repo_path ∷ "reset" ∷ "--hard" ∷ append "origin/" job.branch ∷ []))
  synced job.note (sync_dir job.note)
