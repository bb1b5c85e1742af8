-- ===== src/Repo/Realtime/Standings.antt =====
-- The INSERT loop of `snapshot` in crates/riley-leaderboards-core/src/repo/realtime.rs.
use riley_leaderboards.Prelude.{ℕ, ◌+◌, String, none, some, List, [], ◌∷◌, F64}
use riley_leaderboards.Models.{
  Result, ◌>>=◌, ok_or, missing_in_postgres, internal, ok, Uuid, Entry, Placement,
}
use riley_leaderboards.Repo.Versions.Placements.{insert_placement, entry_for}

module _ {V : Type 0} where
  -- The placement of the loop, for an entry and its score.
  abbrev pub standing_placement : Uuid → Uuid → Uuid → F64 → Placement V
  standing_placement version_id id entry_id score = record {
    id = id;
    version_id = version_id;
    entry_id = entry_id;
    position = none;
    score = some score;
    tier = none;
    metadata = none;
  }

  -- The loop of `snapshot`: `entry_map` is the entries of the board with the slugs.
  unfoldable pub insert_standings :
      List (Entry V)
      → Uuid
      → Uuid
      → (ℕ → Uuid)
      → ℕ
      → List (String × F64)
      → List (Placement V)
      → Result (List (Placement V))
  insert_standings entries board_id version_id ids i [] table = ok table
  insert_standings entries board_id version_id ids i ((slug, score) ∷ rows) table = do
    entry ← ok_or (entry_for entries board_id slug) (internal (missing_in_postgres slug))
    table' ← insert_placement table (standing_placement version_id (ids i) entry.id score)
    insert_standings entries board_id version_id ids (i + 1) rows table'
