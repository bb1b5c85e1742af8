-- ===== src/Repo/Scores.antt =====
-- crates/riley-leaderboards-core/src/repo/scores.rs: submitted scores and their snapshots.
pub mod Inserted
pub mod Snapshots
pub mod Submitted
use riley_leaderboards.Prelude.{
  ℕ, ◌+◌, String, Bool, not, ◌&&◌, ◌||◌, Option, none, some, List, [], ◌∷◌, ◌++◌, map, ◌==◌, ltb,
  num_eq, if◌then◌else◌, length, any, keep, find, ℤ, F64, is_nan, is_infinite,
}
use riley_leaderboards.Models.{
  Result, ◌>>=◌, ◌>>◌, refuse_if, submit_not_accumulative, submit_not_scored, score_infinite,
  snapshot_not_accumulative, snapshot_not_scored, snapshot_empty, too_many_entries,
  foreign_key_violation, database, validation, ok, Uuid, DateTime, Board, Entry, Placement,
  PlacementWithEntry, VersionWithPlacements, AccumulatedScore, SubmitScore,
}
use riley_leaderboards.Prelude.Rank.{order_by}
use riley_leaderboards.Db.{Db}
use riley_leaderboards.Repo.{validate_slug, validate_name}
use riley_leaderboards.Repo.Entries.{find_entry}
use riley_leaderboards.Repo.Versions.{
  Keys, new_version, check_version_limit, next_number, check_version, add_version, lock_board,
}
use riley_leaderboards.Repo.Versions.Positions.{derive_scored_positions}
use riley_leaderboards.Repo.Versions.Placements.{
  Sql, coalesce, lexicographic, join_entries, insert_placement,
}

-- `as usize` of the limit on entries is checked by the caller; `None` skips it.
abbrev pub check_entry_limit : ℕ → Option ℕ → Result (Unit {0})
check_entry_limit n none = ok tt
check_entry_limit n (some max) = refuse_if (ltb max n) (validation (too_many_entries n max))

abbrev pub new_score : Uuid → DateTime → Uuid → Uuid → F64 → AccumulatedScore
new_score id now board_id entry_id score = record {
  id = id;
  board_id = board_id;
  entry_id = entry_id;
  score = score;
  submitted_at = now;
}

abbrev pub of_entry : Uuid → Uuid → AccumulatedScore → Bool
of_entry board_id entry_id s = num_eq s.board_id board_id && num_eq s.entry_id entry_id

abbrev pub rescore : DateTime → F64 → AccumulatedScore → AccumulatedScore
rescore now score s = record s { score = score; submitted_at = now }

abbrev pub scores_after :
    Uuid
    → DateTime
    → Uuid
    → Uuid
    → F64
    → List AccumulatedScore
    → Option AccumulatedScore
    → AccumulatedScore × List AccumulatedScore
scores_after id now board_id entry_id score table none =
    let row = new_score id now board_id entry_id score in (row, table ++ row ∷ [])
scores_after id now board_id entry_id score table (some s) = (
  rescore now score s,
  map (λ t. if of_entry board_id entry_id t then rescore now score t else t) table,
)

-- INSERT INTO accumulated_scores .. ON CONFLICT (board_id, entry_id) DO UPDATE SET score = ..
unfoldable pub upsert_score :
    Uuid
    → DateTime
    → Uuid
    → Uuid
    → F64
    → List AccumulatedScore
    → AccumulatedScore × List AccumulatedScore
upsert_score id now board_id entry_id score table =
    scores_after id now board_id entry_id score table (find (of_entry board_id entry_id) table)

module _ {V : Type 0} where
  -- INSERT INTO entries .. ON CONFLICT (board_id, slug) DO UPDATE SET name = .., updated_at = now()
  abbrev pub upsert_found :
      Db V → Uuid → DateTime → Uuid → String → String → Option (Entry V) → Uuid × Db V
  upsert_found db id now board_id slug name none = (
    id,
    record db {
      entries =
          db.entries
          ++ record {
            id = id;
            board_id = board_id;
            slug = slug;
            name = name;
            metadata = none;
            created_at = now;
            updated_at = now;
          }
            ∷ [];
    },
  )
  upsert_found db id now board_id slug name (some entry) = (
    entry.id,
    record db {
      entries =
          map (λ e. if num_eq e.id entry.id then record e { name = name; updated_at = now } else e)
            db.entries;
    },
  )

  unfoldable pub upsert_entry : Db V → Uuid → DateTime → Uuid → String → String → Uuid × Db V
  upsert_entry db id now board_id slug name =
      upsert_found db id now board_id slug name (find_entry db board_id slug)

  -- `entry_id` and `score_id` are the keys of the rows that are inserted, where one is.
  unfoldable pub submit :
      Db V → Uuid → Uuid → DateTime → Board V → SubmitScore → Result (AccumulatedScore × Db V)
  submit db entry_id score_id now board input = do
    refuse_if (not board.accumulative) (validation submit_not_accumulative)
    refuse_if (not (board.board_type == "scored")) (validation submit_not_scored)
    refuse_if (is_nan input.score || is_infinite input.score) (validation score_infinite)
    validate_slug input.entry_slug
    validate_name input.entry_name
    refuse_if (not (any (λ b. num_eq b.id board.id) db.boards)) (database foreign_key_violation)
    let (entry, db') = upsert_entry db entry_id now board.id input.entry_slug input.entry_name
    let (score, table) = upsert_score score_id now board.id entry input.score db'.accumulated_scores
    ok (score, record db' { accumulated_scores = table })

  -- `accumulated_scores a JOIN entries e ON e.id = a.entry_id WHERE a.board_id = ..`
  unfoldable pub board_scores : Db V → Uuid → List AccumulatedScore
  board_scores db board_id =
      keep (λ s. num_eq s.board_id board_id && any (λ e. num_eq e.id s.entry_id) db.entries)
        db.accumulated_scores

  abbrev pub score_placement : Uuid → Uuid → AccumulatedScore → Placement V
  score_placement version_id id s = record {
    id = id;
    version_id = version_id;
    entry_id = s.entry_id;
    position = none;
    score = some s.score;
    tier = none;
    metadata = none;
  }

  -- The loop of `snapshot`: `ids i` is the key of the i-th row.
  unfoldable pub insert_scores :
      Uuid
      → (ℕ → Uuid)
      → ℕ
      → List AccumulatedScore
      → List (Placement V)
      → Result (List (Placement V))
  insert_scores version_id ids i [] table = ok table
  insert_scores version_id ids i (s ∷ ss) table = do
    table' ← insert_placement table (score_placement version_id (ids i) s)
    insert_scores version_id ids (i + 1) ss table'

  -- The placements of the new version, `ORDER BY COALESCE(p.position, ..), e.name`.
  unfoldable pub snapshot_placements : Sql V → Db V → Uuid → List (PlacementWithEntry V)
  snapshot_placements sql db version_id =
      order_by
        (λ p q.
          lexicographic (coalesce p.position) (coalesce q.position)
            (sql.name_lt p.entry_name q.entry_name))
        (join_entries db.entries (keep (λ p. num_eq p.version_id version_id) db.placements))

  unfoldable pub snapshot :
      Sql V
      → Db V
      → Keys
      → Board V
      → Option String
      → Option V
      → Option ℤ
      → Option ℕ
      → Result (VersionWithPlacements V × Db V)
  snapshot sql db keys given note metadata max_versions max_entries = do
    refuse_if (not given.accumulative) (validation snapshot_not_accumulative)
    refuse_if (not (given.board_type == "scored")) (validation snapshot_not_scored)
    board ← lock_board db given.id
    check_version_limit db board.id max_versions
    let scores = board_scores db board.id
    refuse_if (num_eq (length scores) 0) (validation snapshot_empty)
    check_entry_limit (length scores) max_entries
    number ← next_number db board.id
    let version = new_version keys board.id number note metadata
    check_version db version
    table ← insert_scores version.id keys.placement_ids 0 scores db.placements
    let db' = record (add_version db version) {
      placements = derive_scored_positions version.id board.sort_direction table;
    }
    ok (record { version = version; placements = snapshot_placements sql db' version.id }, db')
