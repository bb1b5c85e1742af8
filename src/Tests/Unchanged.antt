-- ===== src/Tests/Unchanged.antt =====
-- A file whose placements are those of the latest version.
use riley_leaderboards.Prelude.{
  ℕ, String, ◌≡◌, ◌↔◌, false, Option, none, some, [], ◌∷◌, num_eq, num_eq_iff, length, F64, pos,
}
use riley_leaderboards.Models.{CreatePlacement, PlacementWithEntry}
use riley_leaderboards.Sync.{placements_changed}
use riley_leaderboards.Sync.Unchanged.{AllUnchanged, placements_changed_iff}
use riley_leaderboards.Tests.Base.{one}

-- Metadata is a number.
placed : String → Option F64 → CreatePlacement ℕ
placed slug score = record {
  entry_slug = slug;
  position = none;
  score = score;
  tier = none;
  metadata = some 7;
}

shown : String → Option F64 → PlacementWithEntry ℕ
shown slug score = record {
  id = 1;
  version_id = 1;
  entry_id = 1;
  position = some (pos 1);
  score = score;
  tier = none;
  metadata = some 7;
  entry_slug = slug;
  entry_name = slug;
}

placements_changed_iff_example :
    (placements_changed num_eq "scored" (shown "ann" (some one) ∷ []) (placed "ann" (some one) ∷ [])
      ≡ false)
    ↔ ((length (shown "ann" (some one) ∷ []) ≡ length (placed "ann" (some one) ∷ []))
        × AllUnchanged num_eq num_eq_iff "scored"
            (shown "ann" (some one) ∷ [])
            0
            (placed "ann" (some one) ∷ []))
placements_changed_iff_example =
    placements_changed_iff num_eq num_eq_iff "scored" (shown "ann" (some one) ∷ [])
      (placed "ann" (some one) ∷ [])
