-- ===== src/Repo/Boards.antt =====
-- crates/riley-leaderboards-core/src/repo/boards.rs: the rows of `boards`.
pub mod Tiers
pub mod TierLaws
pub mod Insert
pub mod Consistency
pub mod Checks
pub mod Updates
pub mod Valid
pub mod Removal
use riley_leaderboards.Prelude.{
  ℕ, String, not, ◌&&◌, ◌||◌, Option, none, some, List, [], ◌∷◌, map, ◌==◌, ltb, num_eq,
  if◌then◌else◌, is_some, unwrap_or, length, any, keep, find, option_list,
}
use riley_leaderboards.Models.{
  DbError, Error, Result, ◌>>=◌, ◌>>◌, refuse_if, ok_or, invalid_board_type, invalid_sort_direction,
  tier_config_null, accumulative_not_scored, realtime_not_accumulative, clear_not_realtime,
  direction_not_scored, board_missing, board_exists, board_id_missing, unique_violation, database,
  not_found, conflict, validation, ok, err, Uuid, DateTime, Nullable, resolve, Board, CreateBoard,
  UpdateBoard, BoardSummary, absent, null, value, Version,
}
use riley_leaderboards.Models.Pagination.{
  CursorText, PaginationParams, PaginatedResponse, older, paginate,
}
use riley_leaderboards.Prelude.Rank.{order_by}
use riley_leaderboards.Models.Json.{Json}
use riley_leaderboards.Db.{Db}
use riley_leaderboards.Repo.{validate_slug, validate_name}
use riley_leaderboards.Repo.Boards.Tiers.{validate_tier_config}
use riley_leaderboards.Repo.Boards.Insert.{insert_board, update_row}

unfoldable pub validate_board_type : String → Result (Unit {0})
validate_board_type board_type =
    if board_type == "ordered" || board_type == "scored" || board_type == "tiered"
    then ok tt
    else err (validation (invalid_board_type board_type))

unfoldable pub validate_sort_direction : String → Result (Unit {0})
validate_sort_direction sort_direction =
    if sort_direction == "asc" || sort_direction == "desc"
    then ok tt
    else err (validation (invalid_sort_direction sort_direction))

-- `map_err` of the INSERT
abbrev pub create_error : String → DbError → Error
create_error slug unique_violation = conflict (board_exists slug)
create_error slug e = database e

abbrev pub on_some : {A : Type 0} → Option A → (A → Result (Unit {0})) → Result (Unit {0})
on_some none check = ok tt
on_some (some a) check = check a

abbrev pub larger : ℕ → Option ℕ → Option ℕ
larger n none = some n
larger n (some m) = if ltb m n then some n else some m

module _ {V : Type 0} where
  unfoldable pub list : Db V → List (Board V)
  list db = order_by (λ b c. ltb c.created_at b.created_at) db.boards

  unfoldable pub list_paginated :
      CursorText → Db V → PaginationParams → Result (PaginatedResponse (Board V))
  list_paginated text db params =
      paginate (λ b. (b.created_at, b.id)) (λ a b. older b a) text params db.boards

  unfoldable pub get_by_slug : Db V → String → Result (Board V)
  get_by_slug db slug =
      ok_or (find (λ b. b.slug == slug) db.boards) (not_found (board_missing slug))

  unfoldable pub get_by_id : Db V → Uuid → Result (Board V)
  get_by_id db id = ok_or (find (λ b. num_eq b.id id) db.boards) (not_found (board_id_missing id))

  -- The largest version number of a board (`ORDER BY version_number DESC LIMIT 1`, or `MAX`).
  unfoldable pub latest_number : List (Version V) → Uuid → Option ℕ
  latest_number [] board_id = none
  latest_number (v ∷ vs) board_id =
      let rest = latest_number vs board_id in
      if num_eq v.board_id board_id then larger v.version_number rest else rest

  unfoldable pub get_summary : Db V → String → Result (BoardSummary V)
  get_summary db slug = do
    board ← get_by_slug db slug
    ok (record {
      board = board;
      latest_version = latest_number db.versions board.id;
      entry_count = length (keep (λ e. num_eq e.board_id board.id) db.entries);
    })

  -- ON DELETE CASCADE from `boards`, and through `entries` and `versions`; a reference to a
  -- deleted version of a board that stays is set to NULL.
  unfoldable pub cascade_board : Uuid → Db V → Db V
  cascade_board id db =
      let of_board = λ (i : Uuid). num_eq i id in
      let entry_gone = λ (i : Uuid). any (λ e. num_eq e.id i && of_board e.board_id) db.entries in
      let version_gone =
        λ (i : Uuid). any (λ v. num_eq v.id i && of_board v.board_id) db.versions in
      record {
        boards = keep (λ b. not (of_board b.id)) db.boards;
        entries = keep (λ e. not (of_board e.board_id)) db.entries;
        versions = keep (λ v. not (of_board v.board_id)) db.versions;
        placements =
            keep (λ p. not (version_gone p.version_id || entry_gone p.entry_id)) db.placements;
        board_references =
            map
              (λ r.
                if any version_gone (option_list r.pinned_version_id)
                then record r { pinned_version_id = none }
                else r)
              (keep (λ r. not (of_board r.board_id)) db.board_references);
        accumulated_scores =
            keep (λ s. not (of_board s.board_id || entry_gone s.entry_id)) db.accumulated_scores;
        collections = db.collections;
        collection_boards = keep (λ c. not (of_board c.board_id)) db.collection_boards;
      }

  unfoldable pub delete : Db V → String → Result (Unit {0} × Db V)
  delete db slug = do
    b ← ok_or (find (λ b. b.slug == slug) db.boards) (not_found (board_missing slug))
    ok (tt, cascade_board b.id db)

abbrev pub new_board : {V : Type 0} → Uuid → DateTime → CreateBoard V → Board V
new_board id now input = record {
  id = id;
  slug = input.slug;
  name = input.name;
  board_type = input.board_type;
  sort_direction = input.sort_direction;
  tier_config = input.tier_config;
  metadata = input.metadata;
  accumulative = input.accumulative;
  realtime = input.realtime;
  clear_on_snapshot = input.clear_on_snapshot;
  created_at = now;
  updated_at = now;
}

-- The fields that the UPDATE binds: an absent field keeps its value.
abbrev pub updated_board : {V : Type 0} → DateTime → UpdateBoard V → Board V → Board V
updated_board now input board = record board {
  name = unwrap_or input.name board.name;
  sort_direction = unwrap_or input.sort_direction board.sort_direction;
  tier_config = resolve input.tier_config board.tier_config;
  metadata = resolve input.metadata board.metadata;
  realtime = unwrap_or input.realtime board.realtime;
  clear_on_snapshot = unwrap_or input.clear_on_snapshot board.clear_on_snapshot;
  updated_at = now;
}

module _ (json : Json) where
  unfoldable pub create :
      Db json.Value
      → Uuid
      → DateTime
      → CreateBoard json.Value
      → Result (Board json.Value × Db json.Value)
  create db id now input = do
    validate_slug input.slug
    validate_name input.name
    validate_board_type input.board_type
    validate_sort_direction input.sort_direction
    (if input.board_type == "tiered" then validate_tier_config json input.tier_config else ok tt)
    refuse_if (input.accumulative && not (input.board_type == "scored"))
        (validation accumulative_not_scored)
    refuse_if (input.realtime && not (input.accumulative && input.board_type == "scored"))
        (validation realtime_not_accumulative)
    refuse_if (input.clear_on_snapshot && not input.realtime) (validation clear_not_realtime)
    refuse_if (not (input.board_type == "scored") && not (input.sort_direction == "desc"))
        (validation direction_not_scored)
    insert_board (create_error input.slug) db (new_board id now input)

  -- The check of a new `tier_config` on a tiered board.
  abbrev pub check_new_tiers : Nullable json.Value → Result (Unit {0})
  check_new_tiers (value v) = validate_tier_config json (some v)
  check_new_tiers null = err (validation tier_config_null)
  check_new_tiers absent = ok tt

  unfoldable pub update :
      Db json.Value
      → DateTime
      → String
      → UpdateBoard json.Value
      → Result (Board json.Value × Db json.Value)
  update db now slug input = do
    on_some input.name validate_name
    on_some input.sort_direction validate_sort_direction
    board ← get_by_slug db slug
    refuse_if (is_some input.sort_direction && not (board.board_type == "scored"))
        (validation direction_not_scored)
    (if board.board_type == "tiered" then check_new_tiers input.tier_config else ok tt)
    let realtime = unwrap_or input.realtime board.realtime
    let clear_on_snapshot = unwrap_or input.clear_on_snapshot board.clear_on_snapshot
    refuse_if (realtime && not (board.accumulative && board.board_type == "scored"))
        (validation realtime_not_accumulative)
    refuse_if (clear_on_snapshot && not realtime) (validation clear_not_realtime)
    update_row db board.id (updated_board now input board)
