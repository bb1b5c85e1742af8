-- ===== src/Tests/Incoming.antt =====
-- Pushes with a MAC that is the body itself, and their announcements.
use riley_leaderboards.Prelude.{
  ℕ, String, ◌≡◌, refl, ◌⊎◌, inl, inr, Option, none, some, List, [], ◌∷◌, ◌==◌, if◌then◌else◌,
}
use riley_leaderboards.Auth.{eq_bytes}
use riley_leaderboards.Webhooks.{version_created, board_created}
use riley_leaderboards.Sync.{SyncAction, BoardSyncResult, created, updated, no_change}
use riley_leaderboards.Incoming.{
  SyncConfig, Reply, Job, Decoders, strip_prefix, verify_signature, github, GitResult,
  announcements, run_sync, invalid_signature, pong, branch_ignored, success, timed_out, git_failed,
}
use riley_leaderboards.Incoming.Trusted.{IsTrusted, github-IsTrusted}
use riley_leaderboards.Tests.Base.{Doc, str, nil, field, docs}

incoming_code : Unit {0}
unfolding strip_prefix verify_signature github announcements run_sync
incoming_code = tt

abbrev push_to : String → Doc
push_to ref =
    field "ref" (str ref) (field "head_commit" (field "message" (str "new round") nil) nil)

-- A body of one byte names the branch.
abbrev decoders : Decoders docs
decoders = record {
  hmac = λ key body. body;
  hex_decode =
      λ hex. if hex == "01" then some (1 ∷ []) else if hex == "02" then some (2 ∷ []) else none;
  from_slice = λ body.
      if eq_bytes body (1 ∷ [])
      then some (push_to "refs/heads/main")
      else if eq_bytes body (2 ∷ [])
      then some (push_to "refs/heads/draft")
      else none;
}

abbrev site : Option SyncConfig
site =
    some (record {
      webhook_secret = some "s3cret";
      repo_path = some "/srv/boards";
      sync_branch = none;
    })

abbrev signed : String → String → List (String × Option String)
signed signature event =
    ("x-hub-signature-256", some signature) ∷ ("x-github-event", some event) ∷ []

abbrev received : String → String → List ℕ → Reply ⊎ Job
received signature event body =
    github docs decoders (λ raw. some raw) site (signed signature event) body

abbrev main_job : Job
main_job = record { repo_path = "/srv/boards"; branch = "main"; note = some "new round" }

abbrev forged : Reply ⊎ Job
forged = received "sha256=02" "push" (1 ∷ [])

answers :
    (received "sha256=01" "push" (1 ∷ []) ≡ inr main_job)
    × (forged ≡ inl invalid_signature)
    × (received "sha1=01" "push" (1 ∷ []) ≡ inl invalid_signature)
    × (received "sha256=01" "ping" (1 ∷ []) ≡ inl pong)
    × (received "sha256=02" "push" (2 ∷ []) ≡ inl branch_ignored)
unfolding incoming_code
answers = (refl, refl, refl, refl, refl)

abbrev no_fetch : List String → GitResult
no_fetch args = timed_out

fetch_fails : run_sync no_fetch (λ note. inr []) main_job ≡ inl (git_failed timed_out)
unfolding incoming_code
fetch_fails = refl

abbrev changed : String → SyncAction → BoardSyncResult
changed slug action = record { slug = slug; name = slug; action = action }

announced :
    run_sync
      (λ args. success)
      (λ note. inr (changed "a" (created 1) ∷ changed "b" no_change ∷ changed "c" (updated 2) ∷ []))
      main_job
    ≡ inr (
        record { event = board_created; slug = "a"; name = "a"; version = none }
        ∷ record {
          event = version_created;
          slug = "a";
          name = "a";
          version = some (1, some "new round");
        }
        ∷ record {
          event = version_created;
          slug = "c";
          name = "c";
          version = some (2, some "new round");
        }
        ∷ [])
unfolding incoming_code
announced = refl

github-IsTrusted_example :
    IsTrusted docs decoders (λ raw. some raw) site (signed "sha256=01" "push") (1 ∷ []) main_job
github-IsTrusted_example =
    github-IsTrusted docs decoders (λ raw. some raw) site (signed "sha256=01" "push") (1 ∷ [])
      main_job answers.0
