-- ===== src/Repo/Realtime/Snapshot.antt =====
-- `snapshot` of crates/riley-leaderboards-core/src/repo/realtime.rs: the standings of a board in
-- Redis, stored as a version. The rows are those of a transaction, so they are kept from `commit` on.
use Prim.Native.String.{◌++◌ as append}
use riley_leaderboards.Prelude.{
  ℕ, String, Bool, true, false, not, Option, none, some, List, [], ◌∷◌, if◌then◌else◌, length,
  is_empty, ℤ,
}
use riley_leaderboards.Models.{
  Result, refuse_if, no_scores, rename_failed, validation, ok, err, Board, VersionWithPlacements,
}
use riley_leaderboards.Db.{Db}
use riley_leaderboards.Repo.Realtime.{scores_key, entries_key}
use riley_leaderboards.Models.Steps.{Step, ◌>>=◌, ◌>>◌, lift}
use riley_leaderboards.Repo.Realtime.Server.{Command, Redis, read, run, tables, commit, rename, del}
use riley_leaderboards.Repo.Realtime.Standings.{insert_standings}
use riley_leaderboards.Repo.Scores.{check_entry_limit, snapshot_placements}
use riley_leaderboards.Repo.Versions.{
  check_version_limit, next_number, check_version, add_version, lock_board, Keys, new_version,
}
use riley_leaderboards.Repo.Versions.Positions.{derive_scored_positions}
use riley_leaderboards.Repo.Versions.Placements.{Sql}

-- The key to read, and the temporary keys of a board that is cleared.
pub record Isolated : Type 0 where
  pub read_sk : String
  pub snap_keys : Option (String × String)

abbrev pub snap_key : String → String → String
snap_key key snap_id = append key (append ":snap:" snap_id)

abbrev pub renames : Bool → String → String → String → String → List Command
renames true sk sk_snap ek ek_snap = rename sk sk_snap ∷ rename ek ek_snap ∷ []
renames false sk sk_snap ek ek_snap = rename sk sk_snap ∷ []

module _ (redis : Redis) (V : Type 0) where
  -- Errors are ignored.
  abbrev pub delete_snap_keys : Option (String × String) → Step (redis.State × Db V) (Unit {0})
  delete_snap_keys none (s, db) = ((s, db), ok tt)
  delete_snap_keys (some (sk_snap, ek_snap)) (s, db) =
      (((redis.pipe (del sk_snap ∷ del ek_snap ∷ []) s).0, db), ok tt)

  -- `delete_snap_keys(..); return Err(..)` where the check refuses
  abbrev pub cleaned :
      Option (String × String) → Result (Unit {0}) → Step (redis.State × Db V) (Unit {0})
  cleaned keys (ok u) = lift (ok u)
  cleaned keys (err e) = do delete_snap_keys keys; lift (err e)

  abbrev pub rename_keys : String → String → String → Step (redis.State × Db V) Isolated
  rename_keys sk ek snap_id = do
    scores ← read (redis.has_key sk)
    lift (refuse_if (not scores) (validation no_scores))
    entries ← read (redis.has_key ek)
    run redis.pipe rename_failed (renames entries sk (snap_key sk snap_id) ek (snap_key ek snap_id))
    lift (
        ok record {
          read_sk = snap_key sk snap_id;
          snap_keys = some (snap_key sk snap_id, snap_key ek snap_id);
        })

  -- The first part of `snapshot`; `snap_id` is the text of a new UUID.
  unfoldable pub isolate : Board V → String → String → Step (redis.State × Db V) Isolated
  isolate given prefix snap_id =
      let sk = scores_key prefix given.slug in
      let ek = entries_key prefix given.slug in
      if given.clear_on_snapshot
      then rename_keys sk ek snap_id
      else lift (ok record { read_sk = sk; snap_keys = none })

  -- The rest of it, from `pool.begin()` on.
  unfoldable pub store :
      Sql V
      → Keys
      → Board V
      → Option String
      → Option V
      → Option ℤ
      → Option ℕ
      → Isolated
      → Step (redis.State × Db V) (VersionWithPlacements V)
  store sql keys given note metadata max_versions max_entries isolated = do
    db ← tables
    board ← lift (lock_board db given.id)
    cleaned isolated.snap_keys (check_version_limit db board.id max_versions)
    standings ← read (redis.zrevrange isolated.read_sk)
    cleaned isolated.snap_keys (refuse_if (is_empty standings) (validation no_scores))
    cleaned isolated.snap_keys (check_entry_limit (length standings) max_entries)
    number ← lift (next_number db board.id)
    let version = new_version keys board.id number note metadata
    lift (check_version db version)
    table ← lift (
        insert_standings db.entries board.id version.id keys.placement_ids 0 standings
          db.placements)
    let db' = record (add_version db version) {
      placements = derive_scored_positions version.id board.sort_direction table;
    }
    commit db'
    delete_snap_keys isolated.snap_keys
    lift (ok record { version = version; placements = snapshot_placements sql db' version.id })

  unfoldable pub snapshot :
      Sql V
      → Keys
      → String
      → Board V
      → Option String
      → Option V
      → String
      → Option ℤ
      → Option ℕ
      → Step (redis.State × Db V) (VersionWithPlacements V)
  snapshot sql keys snap_id given note metadata prefix max_versions max_entries = do
    isolated ← isolate given prefix snap_id
    store sql keys given note metadata max_versions max_entries isolated
