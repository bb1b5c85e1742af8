-- ===== src/Repo/Versions/Created.antt =====
-- What `create` of repo/versions.rs did when it returned a version.
use riley_leaderboards.Prelude.{ℕ, ◌≡◌, false, Option, List, ℤ}
use riley_leaderboards.Models.{
  bind-eq-ok, guard-eq-ok, refuse_if-eq-ok, ok, Board, Placement, CreateVersion, PlacementWithEntry,
  VersionWithPlacements,
}
use riley_leaderboards.Models.Json.{Json}
use riley_leaderboards.Db.{Db}
use riley_leaderboards.Repo.Versions
use riley_leaderboards.Repo.Versions.{
  Keys, new_version, check_version_limit, next_number, check_version, add_version, lock_board,
  finish,
}
use riley_leaderboards.Repo.Versions.Placements.{Sql, check_entries, insert_placements}
use riley_leaderboards.Repo.Versions.Validate.{validate_placements}

module _ (json : Json) (sql : Sql json.Value) where
  pub record Created (db : Db json.Value) (keys : Keys) (given : Board json.Value)
      (input : CreateVersion json.Value) (max_versions : Option ℤ)
      (r : VersionWithPlacements json.Value) (db' : Db json.Value) : Type 0 where
    pub board : Board json.Value
    pub manual : given.accumulative ≡ false
    pub locked : lock_board db given.id ≡ ok board
    pub limit : check_version_limit db board.id max_versions ≡ ok tt
    pub valid : validate_placements json board input.placements ≡ ok tt
    pub number : ℕ
    pub next : next_number db board.id ≡ ok number
    pub rows : List (PlacementWithEntry json.Value)
    pub table : List (Placement json.Value)
    pub inserted :
        insert_placements board keys.version_id keys.placement_ids db.entries 0 input.placements
          db.placements
        ≡ ok (rows, table)
    pub finished :
        finish json sql board
          (new_version keys board.id number input.note input.metadata)
          rows
          (record (add_version db (new_version keys board.id number input.note input.metadata)) {
            placements = table;
          })
        ≡ ok (r, db')

  pub create-Created :
      (db : Db json.Value) (keys : Keys) (given : Board json.Value)
      (input : CreateVersion json.Value) (max_versions : Option ℤ)
      {r : VersionWithPlacements json.Value} {db' : Db json.Value}
      → Versions.create json sql db keys given input max_versions ≡ ok (r, db')
      → Created db keys given input max_versions r db'
  unfolding Versions.create
  create-Created db keys given input max_versions h =
      let (manual, h) = guard-eq-ok _ _ h in
      let (_, h) = guard-eq-ok (validate_placements json given input.placements) _ h in
      let (board, locked, h) = bind-eq-ok (lock_board db given.id) _ h in
      let (limit, h) = guard-eq-ok _ _ h in
      let (valid, h) = guard-eq-ok _ _ h in
      let (number, next, h) = bind-eq-ok (next_number db board.id) _ h in
      let version = new_version keys board.id number input.note input.metadata in
      let (_, h) = guard-eq-ok (check_version db version) _ h in
      let (_, h) = guard-eq-ok (check_entries db.entries board input.placements) _ h in
      let ((rows, table), inserted, h) =
        bind-eq-ok
          (insert_placements board keys.version_id keys.placement_ids db.entries 0 input.placements
            db.placements)
          _ h in
      record {
        board = board;
        manual = refuse_if-eq-ok _ _ manual;
        locked = locked;
        limit = limit;
        valid = valid;
        number = number;
        next = next;
        rows = rows;
        table = table;
        inserted = inserted;
        finished = h;
      }
