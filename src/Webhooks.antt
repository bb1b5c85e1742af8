-- ===== src/Webhooks.antt =====
-- crates/riley-leaderboards-api/src/outbound_webhooks.rs, and the webhook types of
-- crates/riley-leaderboards-core/src/config.rs.
pub mod Patterns
pub mod Attempts
pub mod Selection
use Prim.Native.Char.{code}
use text.Mathlib.Text.{starts_with}
use riley_leaderboards.Prelude.{
  ℕ, ◌+◌, String, Bool, true, false, ◌&&◌, Option, none, some, List, [], ◌∷◌, ◌++◌, ◌==◌, num_eq,
  if◌then◌else◌, and_then, any,
}

pub data WebhookEvent : Type 0 where
  version_created board_created board_updated board_deleted : WebhookEvent

unfoldable pub as_str : WebhookEvent → String
as_str version_created = "version.created"
as_str board_created = "board.created"
as_str board_updated = "board.updated"
as_str board_deleted = "board.deleted"

-- The derived `==`, on the variants.
abbrev pub eq_event : WebhookEvent → WebhookEvent → Bool
eq_event version_created version_created = true
eq_event board_created board_created = true
eq_event board_updated board_updated = true
eq_event board_deleted board_deleted = true
eq_event _ _ = false

-- The secret is the raw text of the `ConfigValue`.
pub record WebhookConfig : Type 0 where
  pub url : String
  pub events : List WebhookEvent
  pub boards : List String
  pub secret : Option String

-- `strip_suffix('*')`
unfoldable pub strip_star : String → Option String
strip_star String.[] = none
strip_star (String.◌∷◌ c String.[]) = if num_eq (code c) b'*' then some String.[] else none
strip_star (String.◌∷◌ c (String.◌∷◌ d s)) =
    and_then (strip_star (String.◌∷◌ d s)) λ p. some (String.◌∷◌ c p)

abbrev match_stripped : String → String → Option String → Bool
match_stripped pattern val none = pattern == val
match_stripped pattern val (some prefix) = starts_with val prefix

unfoldable pub glob_match : String → String → Bool
glob_match pattern val =
    if pattern == "*" then true else match_stripped pattern val (strip_star pattern)

unfoldable pub matches_board_filter : List String → String → Bool
matches_board_filter [] slug = true
matches_board_filter (p ∷ ps) slug = any (λ pattern. glob_match pattern slug) (p ∷ ps)

-- A delivery that `fire` spawns: the address and the secret. `resolve` is `ConfigValue::resolve`.
abbrev pub resolve_secret : (String → Option String) → Option String → Option (Option String)
resolve_secret resolve none = some none
resolve_secret resolve (some raw) = and_then (resolve raw) λ s. some (some s)

abbrev pub delivery : String → Option (Option String) → List (String × Option String)
delivery url none = []
delivery url (some secret) = (url, secret) ∷ []

unfoldable pub fire :
    (String → Option String)
    → WebhookEvent
    → String
    → List WebhookConfig
    → List (String × Option String)
fire resolve event board_slug [] = []
fire resolve event board_slug (config ∷ configs) =
    let rest = fire resolve event board_slug configs in
    if any (λ e. eq_event e event) config.events && matches_board_filter config.boards board_slug
    then delivery config.url (resolve_secret resolve config.secret) ++ rest
    else rest

-- What one request comes back with: the branches of the match in `deliver`.
pub data Reply : Type 0 where
  success client_error other_status no_reply : Reply

pub data Outcome : Type 0 where
  delivered refused exhausted : Outcome

-- How a delivery ends, the requests sent and the seconds slept.
pub record Delivery : Type 0 where
  pub outcome : Outcome
  pub requests : ℕ
  pub slept : ℕ

abbrev retried : ℕ → Delivery → Delivery
retried delay d = record d { requests = d.requests + 1; slept = d.slept + delay }

-- One round of the loop, before the rest of it.
abbrev pub answered : Reply → ℕ → Delivery → Delivery
answered success delay rest = record { outcome = delivered; requests = 1; slept = 0 }
answered client_error delay rest = record { outcome = refused; requests = 1; slept = 0 }
answered other_status delay rest = retried delay rest
answered no_reply delay rest = retried delay rest

-- The loop over the delays; `reply i` is what the i-th request comes back with.
unfoldable pub attempts : (ℕ → Reply) → ℕ → List ℕ → Delivery
attempts reply i [] = record { outcome = exhausted; requests = 0; slept = 0 }
attempts reply i (delay ∷ delays) = answered (reply i) delay (attempts reply (i + 1) delays)

unfoldable pub deliver : (ℕ → Reply) → Delivery
deliver reply = attempts reply 0 (1 ∷ 5 ∷ 0 ∷ [])
