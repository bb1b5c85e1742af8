-- ===== src/Repo/Boards/Tiers.antt =====
-- `validate_tier_config` of repo/boards.rs, and the configurations that it accepts.
use riley_leaderboards.Prelude.{
  ℕ, ◌+◌, String, Bool, true, false, not, Option, List, [], ◌∷◌, ◌==◌, leb, and_then, any, ℤ,
  max_i32, pos, negsuc,
}
use riley_leaderboards.Models.{
  Result, ◌>>=◌, ◌>>◌, refuse_if, ok_or, tier_config_missing, tiers_missing, tiers_empty,
  tier_key_missing, tier_position_missing, tier_key_duplicate, tier_position_range, validation, ok,
}
use riley_leaderboards.Models.Json.{Json}

-- `(i32::MIN as i64..=i32::MAX as i64).contains(&v)`
abbrev pub in_i32 : ℤ → Bool
in_i32 (pos n) = leb n max_i32
in_i32 (negsuc n) = leb n max_i32

module _ (json : Json) where
  -- The loop over the tiers: the index, the keys seen, and the tiers to come.
  unfoldable pub check_tiers : ℕ → List String → List json.Value → Result (Unit {0})
  check_tiers i seen [] = ok tt
  check_tiers i seen (tier ∷ tiers) = do
    key ← ok_or (and_then (json.get tier "key") json.as_str) (validation (tier_key_missing i))
    refuse_if (any (λ k. k == key) seen) (validation (tier_key_duplicate key))
    v ←
        ok_or (and_then (json.get tier "position") json.as_i64)
          (validation (tier_position_missing i))
    refuse_if (not (in_i32 v)) (validation (tier_position_range i v))
    check_tiers (i + 1) (key ∷ seen) tiers

  abbrev pub is_empty : List json.Value → Bool
  is_empty [] = true
  is_empty (_ ∷ _) = false

  unfoldable pub validate_tier_config : Option json.Value → Result (Unit {0})
  unfolding check_tiers
  validate_tier_config tier_config = do
    tc ← ok_or tier_config (validation tier_config_missing)
    tiers ← ok_or (and_then (json.get tc "tiers") json.as_array) (validation tiers_missing)
    refuse_if (is_empty tiers) (validation tiers_empty)
    check_tiers 0 [] tiers
