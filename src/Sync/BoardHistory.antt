-- ===== src/Sync/BoardHistory.antt =====
-- Whether `sync_board` of crates/riley-leaderboards-core/src/sync/execute.rs succeeds or fails, what
-- it reports is what happened to the versions.
use mathlib.Core.Path.{subst}
use riley_leaderboards.Prelude.{
  ℕ, ◌+◌, ◌<◌, String, ◌≡◌, refl, ap, ◌∙◌, inl, inr, Bool, true, false, ◌||◌, Option, none, some,
  List, [], ◌∷◌, ◌++◌, map, num_eq, num_eq_iff, Bool-cases, is_empty, All, All-imp,
}
use riley_leaderboards.Models.{
  Error, Result, migration, database, not_found, conflict, validation, internal,
  service_unavailable, ok, err, Uuid, Board, Entry, CreatePlacement, CreateVersion,
  VersionWithPlacements,
}
use riley_leaderboards.Models.Steps.{after, ◌>>=◌, lift}
use riley_leaderboards.Models.Json.{Json}
use riley_leaderboards.Db.{Db}
use riley_leaderboards.Repo.Boards
use riley_leaderboards.Repo.Entries
use riley_leaderboards.Repo.Versions
use riley_leaderboards.Repo.Versions.Placements.{Sql}
use riley_leaderboards.Repo.Versions.Immutability.{create-appends}
use riley_leaderboards.Sync.{no_change, skipped}
use riley_leaderboards.Sync.Parse.{JsonValues, EntryToml, ParsedBoard, parsed}
use riley_leaderboards.Sync.Changes.{
  text_ne, create_board, direction_changed, tiers_changed, metadata_changed, update_board,
  create_entry, entry_metadata_changed, update_entry, create_placement, entry_by_slug,
}
use riley_leaderboards.Sync.Execute.{
  SyncKeys, settle, call, unused, called, result, write_update, update_existing, create_new,
  configure, sync_entry, sync_entries, needs_version, action_of, create_version, add_version,
  sync_placements, sync_contents, sync_configured, sync_board,
}
use riley_leaderboards.Sync.History.{
  SameHistory, create_entry-Keeps, update_entry-Keeps, create_board-Keeps, update_board-Keeps,
}
use riley_leaderboards.Sync.Recorded.{
  Appended, Recorded, same, settle-Same, unused-Keeps, after-Same, if-Same, if-Recorded,
  after-Recorded,
}

module _ (json : Json) (values : JsonValues json.Value) (sql : Sql json.Value)
    (keys : SyncKeys) where
  write_update-Same :
      (parsed : ParsedBoard json.Value) (existing : Board json.Value) (ranking : Bool)
      (db : Db json.Value)
      → SameHistory db (write_update json values sql keys parsed existing ranking db).0
  write_update-Same parsed existing ranking db =
      let input = update_board values existing parsed in
      after-Same db (call (λ d. Boards.update json d keys.now parsed.slug input) db)
        (λ board. lift (ok (board, ranking)))
        (settle-Same db db (Boards.update json db keys.now parsed.slug input) (same db)
          (update_board-Keeps json db keys.now parsed.slug input))
        (λ a s h. h)

  update_existing-Same :
      (parsed : ParsedBoard json.Value) (existing : Board json.Value) (db : Db json.Value)
      → SameHistory db (update_existing json values sql keys parsed existing db).0
  update_existing-Same parsed existing db =
      let ranking =
        direction_changed values existing parsed || tiers_changed values existing parsed in
      if-Same
        (text_ne existing.name parsed.board.name
          || ranking
          || metadata_changed values existing parsed)
        (write_update json values sql keys parsed existing ranking) (lift (ok (existing, ranking)))
        db db (write_update-Same parsed existing ranking db) (same db)

  create_new-Same :
      (parsed : ParsedBoard json.Value) (db : Db json.Value)
      → SameHistory db (create_new json values sql keys parsed db).0
  create_new-Same parsed db =
      let input = create_board values parsed in
      after-Same db (call (λ d. Boards.create json d keys.board_id keys.now input) db)
        (λ board. lift (ok (board, false)))
        (settle-Same db db (Boards.create json db keys.board_id keys.now input) (same db)
          (create_board-Keeps json db keys.board_id keys.now input))
        (λ a s h. h)

  configure-Same :
      (parsed : ParsedBoard json.Value) (r : Result (Board json.Value)) (db : Db json.Value)
      → SameHistory db (configure json values sql keys parsed r db).0
  configure-Same parsed (ok existing) db = update_existing-Same parsed existing db
  configure-Same parsed (err (not_found m)) db = create_new-Same parsed db
  configure-Same parsed (err (Error.config m)) db = same db
  configure-Same parsed (err (migration m)) db = same db
  configure-Same parsed (err (database m)) db = same db
  configure-Same parsed (err (conflict m)) db = same db
  configure-Same parsed (err (validation m)) db = same db
  configure-Same parsed (err (internal m)) db = same db
  configure-Same parsed (err (service_unavailable m)) db = same db

  sync_entry-Same :
      (board_id : Uuid) (i : ℕ) (e : EntryToml) (existing : Option (Entry json.Value))
      (db₀ db : Db json.Value)
      → SameHistory db₀ db
      → SameHistory db₀ (sync_entry json values sql keys board_id i e existing db).0
  sync_entry-Same board_id i e none db₀ db h =
      settle-Same db₀ db
        (unused (Entries.create db (keys.entry_ids i) keys.now board_id (create_entry values e))) h
        (unused-Keeps db _ (create_entry-Keeps db _ _ _ _))
  sync_entry-Same board_id i e (some existing) db₀ db h =
      let input = update_entry values existing e in
      if-Same (text_ne existing.name e.name || entry_metadata_changed values existing e)
        (called (λ d. Entries.update d keys.now board_id e.slug input)) (lift (ok tt)) db₀ db
        (settle-Same db₀ db (unused (Entries.update db keys.now board_id e.slug input)) h
          (unused-Keeps db _ (update_entry-Keeps db _ _ _ _)))
        h

  sync_entries-Same :
      (board_id : Uuid) (existing : List (Entry json.Value)) (i : ℕ) (es : List EntryToml)
      (db₀ db : Db json.Value)
      → SameHistory db₀ db
      → SameHistory db₀ (sync_entries json values sql keys board_id existing i es db).0
  unfolding sync_entries
  sync_entries-Same board_id existing i [] db₀ db h = h
  sync_entries-Same board_id existing i (e ∷ es) db₀ db h =
      after-Same db₀
        (sync_entry json values sql keys board_id i e (entry_by_slug e.slug existing) db)
        (λ _. sync_entries json values sql keys board_id existing (i + 1) es)
        (sync_entry-Same board_id i e (entry_by_slug e.slug existing) db₀ db h)
        (λ _ s k. sync_entries-Same board_id existing (i + 1) es db₀ s k)

  action-Recorded :
      (parsed : ParsedBoard json.Value) (name : String) (number : ℕ) (db₀ db : Db json.Value)
      → Appended db₀ db number
      → Recorded parsed.slug db₀
          (db, ok (result parsed name (action_of json values sql keys number)))
  action-Recorded parsed name number db₀ db h = elim (Bool-cases (num_eq number 1)) [
    | inl e ↦ rw e (refl, (h, (num_eq_iff number 1).0 e))
    | inr e ↦ rw e (refl, (h, λ q. let e' = (num_eq_iff number 1).1 q in cc))
  ]

  created-Recorded :
      (parsed : ParsedBoard json.Value) (board : Board json.Value)
      (input : CreateVersion json.Value) (db₀ db : Db json.Value)
      (x : Result (VersionWithPlacements json.Value × Db json.Value))
      → SameHistory db₀ db
      → Versions.create json sql db keys.version board input none ≡ x
      → Recorded parsed.slug db₀ (
          after (settle db x) λ (r : VersionWithPlacements json.Value). lift (
            ok
              (result parsed board.name (action_of json values sql keys r.version.version_number))))
  created-Recorded parsed board input db₀ db (err e) h q = h
  created-Recorded parsed board input db₀ db (ok (r, db')) h q =
      let (of_board, _, _, above, frame) =
        create-appends json sql db keys.version board input none q in
      action-Recorded parsed board.name r.version.version_number db₀ db' (
        r.version,
        ap (λ (d : Db json.Value). d.versions) frame ∙ ap (λ l. l ++ r.version ∷ []) h.versions,
        refl,
        subst
            (λ l.
              All
                (λ w. w.board_id ≡ r.version.board_id → w.version_number < r.version.version_number)
                l)
            h.versions (All-imp (λ w f e. f (e ∙ of_board)) db.versions above),
      )

  add_version-Recorded :
      (parsed : ParsedBoard json.Value) (note : Option String) (board : Board json.Value)
      (proposed : List (CreatePlacement json.Value)) (needed : Bool) (db₀ db : Db json.Value)
      → SameHistory db₀ db
      → Recorded parsed.slug db₀
          (add_version json values sql keys parsed note board proposed needed db)
  add_version-Recorded parsed _ board proposed false db₀ db h = (refl, h)
  add_version-Recorded parsed note board proposed true db₀ db h =
      created-Recorded parsed board (create_version json values sql keys parsed note proposed) db₀
        db _ h refl

  placements-Recorded :
      (parsed : ParsedBoard json.Value) (note : Option String) (board : Board json.Value)
      (ranking : Bool) (db₀ db : Db json.Value)
      → SameHistory db₀ db
      → Recorded parsed.slug db₀ (sync_placements json values sql keys parsed note board ranking db)
  placements-Recorded parsed note board ranking db₀ db h =
      let proposed = map (create_placement values) parsed.entries in
      let existing = Entries.list db board.id in
      after-Recorded parsed.slug db₀
        (sync_entries json values sql keys board.id existing 0 parsed.entries db)
        (λ _.
          needs_version json values sql keys board ranking proposed
          >>= add_version json values sql keys parsed note board proposed)
        (sync_entries-Same board.id existing 0 parsed.entries db₀ db h)
        (λ _ s k.
          after-Recorded parsed.slug db₀
            (needs_version json values sql keys board ranking proposed s)
            (add_version json values sql keys parsed note board proposed) k
            (λ needed s' k'. add_version-Recorded parsed note board proposed needed db₀ s' k'))

  contents-Recorded :
      (parsed : ParsedBoard json.Value) (note : Option String) (board : Board json.Value)
      (ranking : Bool) (db₀ db : Db json.Value)
      → SameHistory db₀ db
      → Recorded parsed.slug db₀ (sync_contents json values sql keys parsed note board ranking db)
  contents-Recorded parsed note board ranking db₀ db h =
      if-Recorded parsed.slug (is_empty parsed.entries)
        (lift (ok (result parsed board.name no_change)))
        (sync_placements json values sql keys parsed note board ranking) db₀ db (refl, h)
        (placements-Recorded parsed note board ranking db₀ db h)

  -- Whatever `sync_board` comes back with: a result is for the board's slug; when it reports a
  -- version with a number, that is one version more, numbered above the versions of its board,
  -- and `created` is number 1 and `updated` another; when it fails, or reports no change or that
  -- the board is skipped, every version and every placement is as it was.
  pub sync_board-Recorded :
      (parsed : ParsedBoard json.Value) (note : Option String) (db : Db json.Value)
      → Recorded parsed.slug db (sync_board json values sql keys parsed note db)
  unfolding sync_board
  sync_board-Recorded parsed note db =
      if-Recorded parsed.slug parsed.board.accumulative
        (lift (ok (result parsed parsed.board.name skipped)))
        (sync_configured json values sql keys parsed note) db db (refl, same db)
        (after-Recorded parsed.slug db
          (configure json values sql keys parsed (Boards.get_by_slug db parsed.slug) db)
          (λ configured. sync_contents json values sql keys parsed note configured.0 configured.1)
          (configure-Same parsed (Boards.get_by_slug db parsed.slug) db)
          (λ configured s h. contents-Recorded parsed note configured.0 configured.1 db s h))
