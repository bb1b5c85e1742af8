-- ===== src/Repo/Versions.antt =====
-- crates/riley-leaderboards-core/src/repo/versions.rs: versions of a board.
pub mod Validate
pub mod Positions
pub mod Placements
pub mod Diff
pub mod Numbers
pub mod Created
pub mod Immutability
use riley_leaderboards.Prelude.{
  ℕ, ◌+◌, String, not, ◌&&◌, Option, none, some, List, [], ◌∷◌, ◌++◌, ◌==◌, ltb, num_eq,
  if◌then◌else◌, unwrap_or, length, take, last, any, keep, find, ℤ, ltb_ℤ, eq_ℤ, max_i32, pos,
}
use riley_leaderboards.Prelude.Rank.{order_by}
use riley_leaderboards.Models.{
  Result, ◌>>=◌, ◌>>◌, refuse_if, ok_or, create_on_accumulative, too_many_versions, version_missing,
  versions_missing, unique_violation, row_not_found, out_of_range, database, not_found, validation,
  ok, Uuid, DateTime, Board, Version, CreateVersion, PlacementWithEntry, VersionWithPlacements,
}
use riley_leaderboards.Models.Pagination.{
  CursorText, PaginationParams, PaginatedResponse, older, paginate,
}
use riley_leaderboards.Models.Json.{Json}
use riley_leaderboards.Db.{Db}
use riley_leaderboards.Repo.Boards.{latest_number}
use riley_leaderboards.Repo.Versions.Validate.{validate_placements}
use riley_leaderboards.Repo.Versions.Positions.{derive_scored_positions}
use riley_leaderboards.Repo.Versions.Placements.{
  Sql, fetch_placements, check_entries, insert_placements,
}

module _ {V : Type 0} where
  abbrev pub count_versions : Db V → Uuid → ℕ
  count_versions db board_id = length (keep (λ v. num_eq v.board_id board_id) db.versions)

  -- The limit, checked when the board's row is locked.
  unfoldable pub check_version_limit : Db V → Uuid → Option ℤ → Result (Unit {0})
  check_version_limit db board_id none = ok tt
  check_version_limit db board_id (some max) =
      refuse_if (not (ltb_ℤ (pos (count_versions db board_id)) max))
        (validation (too_many_versions (count_versions db board_id) max))

  -- SELECT COALESCE(MAX(version_number), 0) + 1, an `integer`
  unfoldable pub next_number : Db V → Uuid → Result ℕ
  next_number db board_id = do
    let n = unwrap_or (latest_number db.versions board_id) 0 + 1
    refuse_if (ltb max_i32 n) (database out_of_range)
    ok n

  -- INSERT INTO versions: UNIQUE (board_id, version_number), and the table with the row.
  unfoldable pub check_version : Db V → Version V → Result (Unit {0})
  check_version db v =
      refuse_if
        (any (λ w. num_eq w.board_id v.board_id && num_eq w.version_number v.version_number)
          db.versions)
        (database unique_violation)

  abbrev pub add_version : Db V → Version V → Db V
  add_version db v = record db { versions = db.versions ++ v ∷ [] }

  -- SELECT .. FOR UPDATE of a row that has to be there (`fetch_one`)
  unfoldable pub lock_board : Db V → Uuid → Result (Board V)
  lock_board db id = ok_or (find (λ b. num_eq b.id id) db.boards) (database row_not_found)

  unfoldable pub list : Db V → Uuid → List (Version V)
  list db board_id =
      order_by (λ v w. ltb w.version_number v.version_number)
        (keep (λ v. num_eq v.board_id board_id) db.versions)

  unfoldable pub list_paginated :
      CursorText → Db V → Uuid → PaginationParams → Result (PaginatedResponse (Version V))
  list_paginated text db board_id params =
      paginate (λ v. (v.created_at, v.id)) (λ a b. older b a) text params
        (keep (λ v. num_eq v.board_id board_id) db.versions)

  unfoldable pub get_by_number : Sql V → Db V → Uuid → ℤ → Result (VersionWithPlacements V)
  get_by_number sql db board_id version_number = do
    version ←
        ok_or
          (find (λ v. num_eq v.board_id board_id && eq_ℤ (pos v.version_number) version_number)
            db.versions)
          (not_found (version_missing version_number))
    placements ← fetch_placements sql db version.id
    ok (record { version = version; placements = placements })

  abbrev head : List (Version V) → Option (Version V)
  head [] = none
  head (v ∷ _) = some v

  unfoldable pub get_latest : Sql V → Db V → Uuid → Result (VersionWithPlacements V)
  unfolding list
  get_latest sql db board_id = do
    version ← ok_or (head (list db board_id)) (not_found versions_missing)
    placements ← fetch_placements sql db version.id
    ok (record { version = version; placements = placements })

  unfoldable pub since : Db V → Uuid → ℤ → ℕ → List (Version V)
  since db board_id after_version limit = take limit (
      order_by (λ v w. ltb v.version_number w.version_number)
        (keep (λ v. num_eq v.board_id board_id && ltb_ℤ after_version (pos v.version_number))
          db.versions))

-- The keys and the time that Postgres gives to the rows of a new version.
pub record Keys : Type 0 where
  pub version_id : Uuid
  pub placement_ids : ℕ → Uuid
  pub now : DateTime

abbrev pub new_version : {V : Type 0} → Keys → Uuid → ℕ → Option String → Option V → Version V
new_version keys board_id number note metadata = record {
  id = keys.version_id;
  board_id = board_id;
  version_number = number;
  note = note;
  metadata = metadata;
  created_at = keys.now;
}

module _ (json : Json) (sql : Sql json.Value) where
  abbrev pub derived : Board json.Value → Version json.Value → Db json.Value → Db json.Value
  derived board version db = record db {
    placements = derive_scored_positions version.id board.sort_direction db.placements;
  }

  -- The last step: on a scored board the positions are derived and the placements read again.
  abbrev pub finish :
      Board json.Value
      → Version json.Value
      → List (PlacementWithEntry json.Value)
      → Db json.Value
      → Result (VersionWithPlacements json.Value × Db json.Value)
  finish board version placements db =
      if board.board_type == "scored"
      then (do
        let db' = derived board version db
        ranked ← fetch_placements sql db' version.id
        ok (record { version = version; placements = ranked }, db'))
      else ok (record { version = version; placements = placements }, db)

  unfoldable pub create :
      Db json.Value
      → Keys
      → Board json.Value
      → CreateVersion json.Value
      → Option ℤ
      → Result (VersionWithPlacements json.Value × Db json.Value)
  create db keys given input max_versions = do
    refuse_if given.accumulative (validation create_on_accumulative)
    validate_placements json given input.placements
    board ← lock_board db given.id
    check_version_limit db board.id max_versions
    validate_placements json board input.placements
    number ← next_number db board.id
    let version = new_version keys board.id number input.note input.metadata
    check_version db version
    let db' = add_version db version
    check_entries db'.entries board input.placements
    (placements, table) ←
        insert_placements board version.id keys.placement_ids db'.entries 0 input.placements
          db'.placements
    finish board version placements (record db' { placements = table })
