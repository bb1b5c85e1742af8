-- ===== src/Repo/Realtime.antt =====
-- crates/riley-leaderboards-core/src/repo/realtime.rs: the standings of realtime boards in Redis.
-- The state of a step is that of Redis, which keeps what a failed step did, beside the tables of
-- Postgres.
pub mod Server
pub mod Standings
pub mod Snapshot
pub mod KeyNames
pub mod Recorded
pub mod Stored
pub mod Isolation
pub mod Live
use Prim.Native.String.{◌++◌ as append}
use riley_leaderboards.Prelude.{
  ℕ, ◌+◌, String, not, ◌||◌, Option, none, some, List, [], ◌∷◌, map, ◌==◌, num_eq, if◌then◌else◌,
  unwrap_or, any, as_i32, F64, is_nan, is_infinite,
}
use riley_leaderboards.Models.{
  refuse_if, score_infinite, submit_not_realtime, redis_failed, foreign_key_violation, database,
  validation, ok, Uuid, DateTime, Board, Version, PlacementWithEntry, VersionWithPlacements,
  SubmitScore,
}
use riley_leaderboards.Db.{Db}
use riley_leaderboards.Repo.{validate_slug, validate_name}
use riley_leaderboards.Models.Steps.{Step, ◌>>=◌, ◌>>◌, lift}
use riley_leaderboards.Repo.Realtime.Server.{Redis, put, read, run, tables, commit, del}
use riley_leaderboards.Repo.Scores.{upsert_entry, check_entry_limit, snapshot_placements}
use riley_leaderboards.Repo.Versions.{
  Keys, new_version, check_version_limit, next_number, check_version, add_version, lock_board,
}
use riley_leaderboards.Repo.Versions.Positions.{derive_scored_positions}
use riley_leaderboards.Repo.Versions.Placements.{Sql, insert_placement, entry_for}

unfoldable pub scores_key : String → String → String
scores_key prefix slug = append prefix (append ":board:" (append slug ":scores"))

unfoldable pub entries_key : String → String → String
entries_key prefix slug = append prefix (append ":board:" (append slug ":entries"))

module _ (redis : Redis) where
  abbrev pub names_of : String → List (String × F64) → redis.State → Option (List (Option String))
  names_of key [] s = some []
  names_of key (row ∷ rows) s = redis.hget key (map (λ (r : String × F64). r.0) (row ∷ rows)) s

module _ {V : Type 0} where
  -- The row of `latest` for the i-th of the standings; the nil UUID is 0.
  abbrev pub live_placement : ℕ → String × F64 → Option String → PlacementWithEntry V
  live_placement i (slug, score) name = record {
    id = 0;
    version_id = 0;
    entry_id = 0;
    position = some (as_i32 (i + 1));
    score = some score;
    tier = none;
    metadata = none;
    entry_slug = slug;
    entry_name = unwrap_or name slug;
  }

  -- `.zip(..).enumerate().map(..)`, from i on
  unfoldable pub live_placements :
      ℕ → List (String × F64) → List (Option String) → List (PlacementWithEntry V)
  live_placements i [] names = []
  live_placements i (row ∷ rows) [] = []
  live_placements i (row ∷ rows) (name ∷ names) =
      live_placement i row name ∷ live_placements (i + 1) rows names

module _ (redis : Redis) (V : Type 0) where
  -- `entry_id` is the key of the row that is inserted, where one is. The entry stays when Redis
  -- fails: its statement is committed.
  unfoldable pub submit :
      Uuid → DateTime → Board V → SubmitScore → String → Step (redis.State × Db V) (Unit {0})
  submit entry_id now board input prefix = do
    lift (refuse_if (not board.realtime) (validation submit_not_realtime))
    lift (refuse_if (is_nan input.score || is_infinite input.score) (validation score_infinite))
    lift (validate_slug input.entry_slug)
    lift (validate_name input.entry_name)
    db ← tables
    lift (
        refuse_if (not (any (λ b. num_eq b.id board.id) db.boards))
          (database foreign_key_violation))
    commit (upsert_entry db entry_id now board.id input.entry_slug input.entry_name).1
    run redis.pipe redis_failed (
        put (scores_key prefix board.slug) (entries_key prefix board.slug) input.entry_slug
          input.entry_name input.score)

  abbrev live_version : Board V → DateTime → Version V
  live_version board now = record {
    id = 0;
    board_id = board.id;
    version_number = 0;
    note = none;
    metadata = none;
    created_at = now;
  }

  abbrev pub standings_of : Board V → String → redis.State → Option (List (String × F64))
  standings_of board key s =
      if board.sort_direction == "asc" then redis.zrange key s else redis.zrevrange key s

  unfoldable pub latest :
      DateTime → Board V → String → Step (redis.State × Db V) (VersionWithPlacements V)
  latest now board prefix = do
    rows ← read (standings_of board (scores_key prefix board.slug))
    names ← read (names_of redis (entries_key prefix board.slug) rows)
    lift (ok record { version = live_version board now; placements = live_placements 0 rows names })

  unfoldable pub clear : String → String → Step (redis.State × Db V) (Unit {0})
  clear board_slug prefix =
      run redis.pipe redis_failed
        (del (scores_key prefix board_slug) ∷ del (entries_key prefix board_slug) ∷ [])
