-- ===== src/Repo/Versions/Validate.antt =====
-- `validate_placements` of crates/riley-leaderboards-core/src/repo/versions.rs.
pub mod Accepts
use riley_leaderboards.Prelude.{
  ℕ, ◌+◌, String, Bool, true, false, not, ◌||◌, Option, none, some, List, [], ◌∷◌, ◌++◌, map, ◌==◌,
  if◌then◌else◌, unwrap_or, and_then, any, option_list, ℤ, ltb_ℤ, eq_ℤ, as_i32, F64, is_nan,
  is_infinite, pos,
}
use riley_leaderboards.Models.{
  Result, ◌>>=◌, ◌>>◌, refuse_if, no_placements, duplicate_entry, position_too_small,
  duplicate_position, score_missing, score_not_finite, tier_missing, invalid_tier, validation, ok,
  err, Board, CreatePlacement,
}
use riley_leaderboards.Models.Json.{Json}
use riley_leaderboards.Models.Distinct.{check_distinct}

-- `p.position.unwrap_or((i as i32) + 1)`, which wraps like the cast.
abbrev pub resolved : {V : Type 0} → ℕ → CreatePlacement V → ℤ
resolved i p = unwrap_or p.position (as_i32 (i + 1))

abbrev pub resolved_from : {V : Type 0} → ℕ → List (CreatePlacement V) → List ℤ
resolved_from i [] = []
resolved_from i (p ∷ ps) = resolved i p ∷ resolved_from (i + 1) ps

abbrev pub is_empty : {A : Type 0} → List A → Bool
is_empty [] = true
is_empty (_ ∷ _) = false

-- "position must be >= 1"
check_position : String → Option ℤ → Result (Unit {0})
check_position slug none = ok tt
check_position slug (some i) = refuse_if (ltb_ℤ i (pos 1)) (validation (position_too_small i slug))

check_score : String → Option F64 → Result (Unit {0})
check_score slug none = err (validation (score_missing slug))
check_score slug (some s) =
    refuse_if (is_nan s || is_infinite s) (validation (score_not_finite slug))

-- `None` for the keys means that the configuration lists no tiers: any tier will do.
check_tier : Option (List String) → String → Option String → Result (Unit {0})
check_tier valid slug none = err (validation (tier_missing slug))
check_tier none slug (some tier) = ok tt
check_tier (some keys) slug (some tier) =
    refuse_if (not (any (λ k. k == tier) keys)) (validation (invalid_tier tier slug keys))

module _ {V : Type 0} where
  unfoldable pub check_positions : List (CreatePlacement V) → Result (Unit {0})
  unfolding check_position
  check_positions [] = ok tt
  check_positions (p ∷ ps) = do check_position p.entry_slug p.position; check_positions ps

  unfoldable pub check_scores : List (CreatePlacement V) → Result (Unit {0})
  unfolding check_score
  check_scores [] = ok tt
  check_scores (p ∷ ps) = do check_score p.entry_slug p.score; check_scores ps

  unfoldable pub check_tiers : Option (List String) → List (CreatePlacement V) → Result (Unit {0})
  unfolding check_tier
  check_tiers valid [] = ok tt
  check_tiers valid (p ∷ ps) = do check_tier valid p.entry_slug p.tier; check_tiers valid ps

module _ (json : Json) where
  -- `filter_map` of the keys that are texts
  unfoldable pub tier_keys : List json.Value → List String
  tier_keys [] = []
  tier_keys (t ∷ ts) = option_list (and_then (json.get t "key") json.as_str) ++ tier_keys ts

  abbrev map_keys : Option (List json.Value) → Option (List String)
  map_keys none = none
  map_keys (some arr) = some (tier_keys arr)

  unfoldable pub valid_tiers : Option json.Value → Option (List String)
  valid_tiers tier_config =
      and_then tier_config
        λ tc. and_then (json.get tc "tiers") λ tiers. map_keys (json.as_array tiers)

  unfoldable pub check_by_type :
      Board json.Value → List (CreatePlacement json.Value) → Result (Unit {0})
  check_by_type board placements =
      if board.board_type == "ordered"
      then check_distinct eq_ℤ duplicate_position [] (resolved_from 0 placements)
      else if board.board_type == "scored"
      then check_scores placements
      else if board.board_type == "tiered"
      then check_tiers (valid_tiers board.tier_config) placements
      else ok tt

  unfoldable pub validate_placements :
      Board json.Value → List (CreatePlacement json.Value) → Result (Unit {0})
  validate_placements board placements = do
    refuse_if (is_empty placements) (validation no_placements)
    check_distinct ◌==◌ duplicate_entry [] (map (λ p. p.entry_slug) placements)
    check_positions placements
    check_by_type board placements
