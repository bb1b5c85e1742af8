-- ===== src/Sync.antt =====
-- crates/riley-leaderboards-core/src/sync/execute.rs: boards described by files are brought into the
-- database. No step is rolled back when a later one fails, but each repository call is atomic.
pub mod Parse
pub mod Changes
pub mod Execute
pub mod Unchanged
pub mod History
pub mod Recorded
pub mod BoardHistory
pub mod Directory
use riley_leaderboards.Prelude.{
  ℕ, ◌+◌, String, Bool, true, false, not, ◌||◌, Option, none, some, List, [], ◌∷◌, ◌==◌, num_eq,
  if◌then◌else◌, length, ℤ, as_i32,
}
use riley_leaderboards.Models.{Error, database, CreatePlacement, PlacementWithEntry}
use riley_leaderboards.Models.Steps.{◌>>=◌, ◌>>◌}
use riley_leaderboards.Models.Json.{Json}
use riley_leaderboards.Db.{Db}
use riley_leaderboards.Repo
use riley_leaderboards.Repo.{scores_equal}
use riley_leaderboards.Repo.Boards
use riley_leaderboards.Repo.Entries
use riley_leaderboards.Repo.Versions
use riley_leaderboards.Repo.Versions.{Keys}
use riley_leaderboards.Repo.Versions.Diff.{position_ne, tier_ne, by_slug}
use riley_leaderboards.Repo.Versions.Placements.{Sql}

pub data SyncAction : Type 0 where
  created updated : ℕ → SyncAction
  no_change skipped : SyncAction
  failed : Error → SyncAction

pub record BoardSyncResult : Type 0 where
  pub slug : String
  pub name : String
  pub action : SyncAction

-- `!=` on `Option<serde_json::Value>`
abbrev pub json_ne : {V : Type 0} → (V → V → Bool) → Option V → Option V → Bool
json_ne eq none none = false
json_ne eq (some a) (some b) = not (eq a b)
json_ne eq _ _ = true

-- The comparison of positions for the proposed placement at index `idx`.
abbrev pub position_changed : String → ℕ → Option ℤ → Option ℤ → Bool
position_changed board_type idx current (some i) = position_ne current (some i)
position_changed board_type idx current none =
    if board_type == "ordered" then position_ne current (some (as_i32 (idx + 1))) else false

module _ {V : Type 0} (eq : V → V → Bool) where
  abbrev pub placement_changed :
      String → ℕ → CreatePlacement V → Option (PlacementWithEntry V) → Bool
  placement_changed board_type idx p none = true
  placement_changed board_type idx p (some c) =
      position_changed board_type idx c.position p.position
      || not (scores_equal c.score p.score)
      || tier_ne c.tier p.tier
      || json_ne eq c.metadata p.metadata

  -- The loop of `placements_changed`, from index `idx` on.
  unfoldable pub any_changed :
      String → List (PlacementWithEntry V) → ℕ → List (CreatePlacement V) → Bool
  any_changed board_type current idx [] = false
  any_changed board_type current idx (p ∷ ps) =
      let rest = any_changed board_type current (idx + 1) ps in
      if placement_changed board_type idx p (by_slug p.entry_slug current) then true else rest

  unfoldable pub placements_changed :
      String → List (PlacementWithEntry V) → List (CreatePlacement V) → Bool
  placements_changed board_type current proposed =
      not (num_eq (length current) (length proposed)) || any_changed board_type current 0 proposed
