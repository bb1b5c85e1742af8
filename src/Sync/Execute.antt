-- ===== src/Sync/Execute.antt =====
-- `sync_board` and `sync_dir` of crates/riley-leaderboards-core/src/sync/execute.rs.
use riley_leaderboards.Prelude.{
  ℕ, ◌+◌, String, Bool, true, false, ◌||◌, Option, none, some, List, [], ◌∷◌, map, num_eq,
  if◌then◌else◌, unwrap_or, is_empty,
}
use riley_leaderboards.Models.{
  Result, not_found, ok, err, Uuid, DateTime, Board, Entry, CreatePlacement, CreateVersion,
  VersionWithPlacements,
}
use riley_leaderboards.Models.Steps.{Step, ◌>>=◌, ◌>>◌, lift}
use riley_leaderboards.Models.Json.{Json}
use riley_leaderboards.Db.{Db}
use riley_leaderboards.Repo.Boards
use riley_leaderboards.Repo.Entries
use riley_leaderboards.Repo.Versions
use riley_leaderboards.Repo.Versions.{list, get_latest, Keys, create}
use riley_leaderboards.Repo.Versions.Placements.{Sql}
use riley_leaderboards.Sync.{
  SyncAction, BoardSyncResult, placements_changed, created, updated, no_change, skipped, failed,
}
use riley_leaderboards.Sync.Parse.{JsonValues, EntryToml, ParsedBoard, parsed}
use riley_leaderboards.Sync.Changes.{
  text_ne, create_board, direction_changed, tiers_changed, metadata_changed, update_board,
  create_entry, entry_metadata_changed, update_entry, create_placement, entry_by_slug,
}

-- The keys and the time that Postgres gives to the rows that a board's synchronisation adds.
pub record SyncKeys : Type 0 where
  pub board_id : Uuid
  pub entry_ids : ℕ → Uuid
  pub version : Keys
  pub now : DateTime

-- A repository call as a step: it changes the tables when it succeeds.
abbrev pub settle : {D A : Type 0} → D → Result (A × D) → D × Result A
settle db (ok (a, db')) = (db', ok a)
settle db (err e) = (db, err e)

abbrev pub call : {D A : Type 0} → (D → Result (A × D)) → Step D A
call f db = settle db (f db)

abbrev pub unused : {D A : Type 0} → Result (A × D) → Result (Unit {0} × D)
unused (ok (a, db)) = ok (tt, db)
unused (err e) = err e

-- A call whose value is not used.
abbrev pub called : {D A : Type 0} → (D → Result (A × D)) → Step D (Unit {0})
called f db = settle db (unused (f db))

abbrev pub tables : {D : Type 0} → Step D D
tables db = (db, ok db)

abbrev pub result : {V : Type 0} → ParsedBoard V → String → SyncAction → BoardSyncResult
result parsed name action = record { slug = parsed.slug; name = name; action = action }

module _ (json : Json) (values : JsonValues json.Value) (sql : Sql json.Value)
    (keys : SyncKeys) where
  -- The row of a board that is there, and whether its ranking changed.
  abbrev pub write_update :
      ParsedBoard json.Value
      → Board json.Value
      → Bool
      → Step (Db json.Value) (Board json.Value × Bool)
  write_update parsed existing ranking = do
    board ←
        call
          (λ db. Boards.update json db keys.now parsed.slug (update_board values existing parsed))
    lift (ok (board, ranking))

  abbrev pub update_existing :
      ParsedBoard json.Value → Board json.Value → Step (Db json.Value) (Board json.Value × Bool)
  update_existing parsed existing =
      let ranking =
        direction_changed values existing parsed || tiers_changed values existing parsed in
      if text_ne existing.name parsed.board.name
        || ranking
        || metadata_changed values existing parsed
      then write_update parsed existing ranking
      else lift (ok (existing, ranking))

  abbrev pub create_new : ParsedBoard json.Value → Step (Db json.Value) (Board json.Value × Bool)
  create_new parsed = do
    board ← call (λ db. Boards.create json db keys.board_id keys.now (create_board values parsed))
    lift (ok (board, false))

  -- The match on `get_by_slug`.
  abbrev pub configure :
      ParsedBoard json.Value
      → Result (Board json.Value)
      → Step (Db json.Value) (Board json.Value × Bool)
  configure parsed (ok existing) = update_existing parsed existing
  configure parsed (err (not_found m)) = create_new parsed
  configure parsed (err e) = lift (err e)

  abbrev pub sync_entry :
      Uuid → ℕ → EntryToml → Option (Entry json.Value) → Step (Db json.Value) (Unit {0})
  sync_entry board_id i e none =
      called (λ db. Entries.create db (keys.entry_ids i) keys.now board_id (create_entry values e))
  sync_entry board_id i e (some existing) =
      if text_ne existing.name e.name || entry_metadata_changed values existing e
      then called
          (λ db. Entries.update db keys.now board_id e.slug (update_entry values existing e))
      else lift (ok tt)

  -- The loop over the entries of the file, against the entries that the board had before it.
  unfoldable pub sync_entries :
      Uuid → List (Entry json.Value) → ℕ → List EntryToml → Step (Db json.Value) (Unit {0})
  sync_entries board_id existing i [] = lift (ok tt)
  sync_entries board_id existing i (e ∷ es) = do
    sync_entry board_id i e (entry_by_slug e.slug existing)
    sync_entries board_id existing (i + 1) es

  -- The match on `get_latest`.
  abbrev pub compare_latest :
      Board json.Value
      → List (CreatePlacement json.Value)
      → Result (VersionWithPlacements json.Value)
      → Result Bool
  compare_latest board proposed (ok latest) =
      ok (placements_changed values.eq board.board_type latest.placements proposed)
  compare_latest board proposed (err (not_found m)) = ok true
  compare_latest board proposed (err e) = err e

  abbrev pub decide :
      Board json.Value → Bool → List (CreatePlacement json.Value) → Db json.Value → Result Bool
  decide board true proposed db = ok true
  decide board false proposed db =
      compare_latest board proposed (Versions.get_latest sql db board.id)

  abbrev pub needs_version :
      Board json.Value → Bool → List (CreatePlacement json.Value) → Step (Db json.Value) Bool
  needs_version board ranking proposed db = (db, decide board ranking proposed db)

  abbrev pub action_of : ℕ → SyncAction
  action_of number = if num_eq number 1 then created number else updated number

  abbrev pub create_version :
      ParsedBoard json.Value
      → Option String
      → List (CreatePlacement json.Value)
      → CreateVersion json.Value
  create_version parsed note proposed = record {
    note = some (unwrap_or note "Synced from file");
    metadata = parsed.version_metadata;
    placements = proposed;
  }

  abbrev pub add_version :
      ParsedBoard json.Value
      → Option String
      → Board json.Value
      → List (CreatePlacement json.Value)
      → Bool
      → Step (Db json.Value) BoardSyncResult
  add_version parsed _ board proposed false = lift (ok (result parsed board.name no_change))
  add_version parsed note board proposed true = do
    version ← call (λ db.
        Versions.create json sql db keys.version board (create_version parsed note proposed) none)
    lift (ok (result parsed board.name (action_of version.version.version_number)))

  abbrev pub sync_placements :
      ParsedBoard json.Value
      → Option String
      → Board json.Value
      → Bool
      → Step (Db json.Value) BoardSyncResult
  sync_placements parsed note board ranking = do
    db ← tables
    sync_entries board.id (Entries.list db board.id) 0 parsed.entries
    let proposed = map (create_placement values) parsed.entries
    needed ← needs_version board ranking proposed
    add_version parsed note board proposed needed

  abbrev pub sync_contents :
      ParsedBoard json.Value
      → Option String
      → Board json.Value
      → Bool
      → Step (Db json.Value) BoardSyncResult
  sync_contents parsed note board ranking =
      if is_empty parsed.entries
      then lift (ok (result parsed board.name no_change))
      else sync_placements parsed note board ranking

  abbrev pub sync_configured :
      ParsedBoard json.Value → Option String → Step (Db json.Value) BoardSyncResult
  sync_configured parsed note = do
    db ← tables
    configured ← configure parsed (Boards.get_by_slug db parsed.slug)
    sync_contents parsed note configured.0 configured.1

  unfoldable pub sync_board :
      ParsedBoard json.Value → Option String → Step (Db json.Value) BoardSyncResult
  sync_board parsed note =
      if parsed.board.accumulative
      then lift (ok (result parsed parsed.board.name skipped))
      else sync_configured parsed note

-- The results of a directory, one board after the other; `keys i` are the keys of the i-th.
module _ (json : Json) (values : JsonValues json.Value) (sql : Sql json.Value)
    (keys : ℕ → SyncKeys) where
  abbrev pub reported :
      ParsedBoard json.Value
      → Db json.Value × Result BoardSyncResult
      → Db json.Value × BoardSyncResult
  reported parsed (db, ok r) = (db, r)
  reported parsed (db, err e) = (db, result parsed parsed.slug (failed e))

  unfoldable pub sync_all :
      ℕ
      → List (ParsedBoard json.Value)
      → Option String
      → Db json.Value
      → Db json.Value × List BoardSyncResult
  sync_all i [] _ db = (db, [])
  sync_all i (p ∷ ps) note db =
      let (db', r) = reported p (sync_board json values sql (keys i) p note db) in
      let (db'', rs) = sync_all (i + 1) ps note db' in (db'', r ∷ rs)

  unfoldable pub sync_dir :
      Result (List (ParsedBoard json.Value))
      → Option String
      → Step (Db json.Value) (List BoardSyncResult)
  sync_dir (err e) _ db = (db, err e)
  sync_dir (ok parsed) note db = let (db', rs) = sync_all 0 parsed note db in (db', ok rs)
