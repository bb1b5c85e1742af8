-- ===== src/Incoming/Trusted.antt =====
-- Which requests make `github` of crates/riley-leaderboards-api/src/routes/webhooks.rs queue a
-- synchronisation.
use Prim.Native.String.{◌++◌ as append}
use riley_leaderboards.Prelude.{
  ℕ, String, ◌≡◌, refl, sym, ap, ◌∙◌, ◌⊎◌, inl, inr, Bool, true, false, not, Option, none, some,
  List, arith, ◌==◌, eq_iff, if◌then◌else◌, Bool-cases, unwrap_or, and_then, not-eq-false, any,
  option_list, bytes, lookup,
}
use riley_leaderboards.Models.Json.{Json}
use riley_leaderboards.Auth.{refuse_if, ok_or}
use riley_leaderboards.Auth.Authentic.{
  bind-eq-inr, refuse_if-eq-inr, ok_or-eq-inr, inr-injective, eq_bytes_iff,
}
use riley_leaderboards.Incoming.{
  SyncConfig, Reply, Job, Decoders, strip_prefix, header, check_event, verify_signature, text_at,
  github, processing_failed, missing_signature, bad_signature_header, invalid_signature,
  missing_event, bad_event_header, pong, event_ignored, branch_ignored, invalid_json, missing_ref,
}

-- The request is a push to the branch, signed with the secret.
module _ (json : Json) (decoders : Decoders json) where
  pub record IsTrusted (resolve_value : String → Option String) (settings : Option SyncConfig)
      (headers : List (String × Option String)) (body : List ℕ) (job : Job) : Type 0 where
    pub raw : String
    pub configured_secret : and_then settings (λ c. c.webhook_secret) ≡ some raw
    pub secret : String
    pub resolved : resolve_value raw ≡ some secret
    pub signature : String
    pub signed : lookup "x-hub-signature-256" headers ≡ some (some signature)
    pub hex : String
    pub scheme : strip_prefix signature "sha256=" ≡ some hex
    pub mac : decoders.hex_decode hex ≡ some (decoders.hmac secret body)
    pub event : lookup "x-github-event" headers ≡ some (some "push")
    pub payload : json.Value
    pub parsed : decoders.from_slice body ≡ some payload
    pub branch : job.branch ≡ unwrap_or (and_then settings λ c. c.sync_branch) "main"
    pub push_ref : text_at json decoders payload "ref" ≡ some (append "refs/heads/" job.branch)
    pub repo_path : and_then settings (λ c. c.repo_path) ≡ some job.repo_path

  header-eq-inr :
      (name : String) (a b : Reply) (headers : List (String × Option String)) (val : String)
      → header name a b headers ≡ inr val
      → lookup name headers ≡ some (some val)
  header-eq-inr name a b headers val h =
      let (text, found, h) = bind-eq-inr (ok_or (lookup name headers) a) _ h in
      ok_or-eq-inr _ _ found ∙ ap some (ok_or-eq-inr _ _ h)

  any-option_list :
      {A : Type 0} (p : A → Bool) (o : Option A)
      → any p (option_list o) ≡ true
      → (a : A) × (o ≡ some a) × (p a ≡ true)
  any-option_list p none h = cc
  any-option_list p (some a) h = (a, refl, ground (arith, h))

  not_push :
      (event : String) (ping : Bool)
      → ◌≡◌ {A = Reply ⊎ Unit {0}} (if ping then inl pong else inl event_ignored) (inr tt)
      → ⊥
  not_push event true h = cc
  not_push event false h = cc

  check_event-push : (event : String) → check_event event ≡ inr tt → event ≡ "push"
  check_event-push event h = elim (Bool-cases (event == "push")) [
    | inl e ↦ (eq_iff event "push").0 e
    | inr e ↦ absurd (not_push event (event == "ping") (rw e at h))
  ]

  -- `github` queues a synchronisation only of the configured repository, for a push to the
  -- configured branch (or `main`), whose body has the MAC that its signature gives in hex, made
  -- with the configured secret.
  pub github-IsTrusted :
      (resolve_value : String → Option String) (settings : Option SyncConfig)
      (headers : List (String × Option String)) (body : List ℕ) (job : Job)
      → github json decoders resolve_value settings headers body ≡ inr job
      → IsTrusted resolve_value settings headers body job
  unfolding github verify_signature
  github-IsTrusted resolve_value settings headers body job h =
      let (raw, configured_secret, h) =
        bind-eq-inr (ok_or (and_then settings λ c. c.webhook_secret) processing_failed) _ h in
      let (secret, resolved, h) = bind-eq-inr (ok_or (resolve_value raw) processing_failed) _ h in
      let (repo_path, has_path, h) =
        bind-eq-inr (ok_or (and_then settings λ c. c.repo_path) processing_failed) _ h in
      let (signature, signed, h) =
        bind-eq-inr (header "x-hub-signature-256" missing_signature bad_signature_header headers) _
          h in
      let (_, verified, h) =
        bind-eq-inr
          (refuse_if (not (verify_signature json decoders secret body signature)) invalid_signature)
          _ h in
      let (event, has_event, h) =
        bind-eq-inr (header "x-github-event" missing_event bad_event_header headers) _ h in
      let (_, push, h) = bind-eq-inr (check_event event) _ h in
      let (payload, parsed, h) = bind-eq-inr (ok_or (decoders.from_slice body) invalid_json) _ h in
      let (push_ref, has_ref, h) =
        bind-eq-inr (ok_or (text_at json decoders payload "ref") missing_ref) _ h in
      let (_, same_ref, h) =
        bind-eq-inr
          (refuse_if
            (not (
              push_ref
              == append "refs/heads/" (unwrap_or (and_then settings λ c. c.sync_branch) "main")))
            branch_ignored)
          _ h in
      let (hex, scheme, m) = any-option_list _ _ (not-eq-false _ (refuse_if-eq-inr _ _ verified)) in
      let (bytes, decoded, same_mac) = any-option_list _ _ m in
      let job_eq = inr-injective h in
      record {
        raw = raw;
        configured_secret = ok_or-eq-inr _ _ configured_secret;
        secret = secret;
        resolved = ok_or-eq-inr _ _ resolved;
        signature = signature;
        signed = header-eq-inr _ _ _ headers signature signed;
        hex = hex;
        scheme = scheme;
        mac = decoded ∙ ap some (sym ((eq_bytes_iff _ _).0 same_mac));
        event =
            header-eq-inr _ _ _ headers event has_event
            ∙ ap (λ e. some (some e)) (check_event-push event push);
        payload = payload;
        parsed = ok_or-eq-inr _ _ parsed;
        branch = sym (ap (λ (j : Job). j.branch) job_eq);
        push_ref =
            ok_or-eq-inr _ _ has_ref
            ∙ ap some ((eq_iff push_ref _).0 (not-eq-false _ (refuse_if-eq-inr _ _ same_ref)))
            ∙ ap (λ (j : Job). some (append "refs/heads/" j.branch)) job_eq;
        repo_path = ok_or-eq-inr _ _ has_path ∙ ap (λ (j : Job). some j.repo_path) job_eq;
      }
