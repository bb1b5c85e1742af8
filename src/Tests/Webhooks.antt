-- ===== src/Tests/Webhooks.antt =====
-- Webhooks on concrete configurations.
use Prim.Native.String.{◌++◌ as append}
use text.Mathlib.TextBridge.{IsPrefix}
use riley_leaderboards.Prelude.{
  ℕ, ◌≤◌, String, ◌≡◌, refl, ◌↔◌, true, Option, none, some, List, [], ◌∷◌, ◌==◌, num_eq,
  if◌then◌else◌, In,
}
use riley_leaderboards.Webhooks.{
  WebhookConfig, version_created, strip_star, glob_match, matches_board_filter, fire, Reply,
  success, other_status, no_reply, delivered, exhausted, attempts, deliver,
}
use riley_leaderboards.Webhooks.Patterns.{glob_match-append_iff}
use riley_leaderboards.Webhooks.Selection.{IsSelected, fire_iff}
use riley_leaderboards.Webhooks.Attempts.{IsRetried, deliver-bounds}

webhook_code : Unit {0}
unfolding strip_star glob_match matches_board_filter fire attempts deliver
webhook_code = tt

abbrev hook : String → Option String → WebhookConfig
hook pattern secret = record {
  url = pattern;
  events = version_created ∷ [];
  boards = pattern ∷ [];
  secret = secret;
}

-- The second secret cannot be resolved, the third pattern does not match.
abbrev set_only : String → Option String
set_only raw = if raw == "env:MISSING" then none else some raw

fired :
    fire set_only version_created "dc-pizza" (
      hook "dc-*" (some "s")
      ∷ hook "*" (some "env:MISSING")
      ∷ hook "nfl-*" none
      ∷ hook "dc-pizza" none
      ∷ [])
    ≡ ("dc-*", some "s") ∷ ("dc-pizza", none) ∷ []
unfolding webhook_code
fired = refl

-- The second request succeeds.
abbrev second_time : ℕ → Reply
second_time i = if num_eq i 1 then success else no_reply

delivery_runs :
    (deliver second_time ≡ record { outcome = delivered; requests = 2; slept = 1 })
    × (deliver (λ i. other_status) ≡ record { outcome = exhausted; requests = 3; slept = 6 })
unfolding webhook_code
delivery_runs = (refl, refl)

glob_match-append_iff_example :
    (glob_match (append "dc-" "*") "dc-pizza" ≡ true) ↔ IsPrefix "dc-" "dc-pizza"
glob_match-append_iff_example = glob_match-append_iff "dc-" "dc-pizza"

deliver-bounds_example :
    ((deliver second_time).requests ≤ 3)
    × ((deliver second_time).slept ≤ 6)
    × (((deliver second_time).outcome ≡ exhausted)
        ↔ (IsRetried (second_time 0) × IsRetried (second_time 1) × IsRetried (second_time 2)))
deliver-bounds_example = deliver-bounds second_time

abbrev hooks : List WebhookConfig
hooks = hook "dc-*" (some "s") ∷ hook "*" (some "env:MISSING") ∷ []

fire_iff_example : In ("dc-*", some "s") (fire set_only version_created "dc-pizza" hooks) ↔ (
    (config : WebhookConfig) × In config hooks
    × IsSelected set_only version_created "dc-pizza" ("dc-*", some "s") config)
fire_iff_example = fire_iff set_only version_created "dc-pizza" hooks ("dc-*", some "s")
