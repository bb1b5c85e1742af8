-- ===== src/Repo/Collections.antt =====
-- crates/riley-leaderboards-core/src/repo/collections.rs: named groups of boards.
pub mod Members
use riley_leaderboards.Prelude.{
  String, Bool, not, ◌&&◌, ◌||◌, Option, none, some, List, [], ◌∷◌, ◌++◌, map, ◌==◌, ltb, num_eq,
  if◌then◌else◌, unwrap_or, any, keep, find, ltb_ℤ, eq_ℤ,
}
use riley_leaderboards.Prelude.Rank.{order_by}
use riley_leaderboards.Models.{
  DbError, Error, Result, ◌>>=◌, ◌>>◌, refuse_if, ok_or, collection_missing, collection_exists,
  already_in_collection, not_in_collection, collection_or_board_missing, unique_violation,
  foreign_key_violation, database, not_found, conflict, ok, Uuid, DateTime, resolve, Board, Version,
  Collection, CreateCollection, UpdateCollection, CollectionBoardEntry, AddBoardToCollection,
}
use riley_leaderboards.Models.Pagination.{
  CursorText, PaginationParams, PaginatedResponse, older, paginate,
}
use riley_leaderboards.Db.{Db, CollectionBoard}
use riley_leaderboards.Repo.{validate_slug, validate_name}
use riley_leaderboards.Repo.Boards
use riley_leaderboards.Repo.Boards.{on_some, latest_number}
use riley_leaderboards.Repo.Versions.Placements.{Sql}

-- `map_err` of the INSERTs
abbrev pub create_error : String → DbError → Error
create_error slug unique_violation = conflict (collection_exists slug)
create_error slug e = database e

abbrev pub add_error : String → String → DbError → Error
add_error board_slug collection_slug unique_violation =
    conflict (already_in_collection board_slug collection_slug)
add_error board_slug collection_slug foreign_key_violation =
    not_found (collection_or_board_missing collection_slug board_slug)
add_error board_slug collection_slug e = database e

abbrev pub is_member : Uuid → Uuid → CollectionBoard → Bool
is_member collection_id board_id c =
    num_eq c.collection_id collection_id && num_eq c.board_id board_id

abbrev pub new_collection : {V : Type 0} → Uuid → DateTime → CreateCollection V → Collection V
new_collection id now input = record {
  id = id;
  slug = input.slug;
  name = input.name;
  metadata = input.metadata;
  created_at = now;
  updated_at = now;
}

abbrev pub new_member : Uuid → Uuid → AddBoardToCollection → CollectionBoard
new_member collection_id board_id input = record {
  collection_id = collection_id;
  board_id = board_id;
  display_order = input.display_order;
}

module _ {V : Type 0} where
  unfoldable pub create : Db V → Uuid → DateTime → CreateCollection V → Result (Collection V × Db V)
  create db id now input = do
    validate_slug input.slug
    validate_name input.name
    refuse_if (any (λ c. c.slug == input.slug) db.collections)
        (create_error input.slug unique_violation)
    let row = new_collection id now input
    ok (row, record db { collections = db.collections ++ row ∷ [] })

  unfoldable pub list : Db V → List (Collection V)
  list db = order_by (λ c d. ltb d.created_at c.created_at) db.collections

  unfoldable pub list_paginated :
      CursorText → Db V → PaginationParams → Result (PaginatedResponse (Collection V))
  list_paginated text db params =
      paginate (λ c. (c.created_at, c.id)) (λ a b. older b a) text params db.collections

  unfoldable pub get_by_slug : Db V → String → Result (Collection V)
  get_by_slug db slug =
      ok_or (find (λ c. c.slug == slug) db.collections) (not_found (collection_missing slug))

  abbrev listed : List (Version V) → CollectionBoard → Option (Board V) → List CollectionBoardEntry
  listed versions c none = []
  listed versions c (some b) =
      record {
        slug = b.slug;
        name = b.name;
        board_type = b.board_type;
        display_order = c.display_order;
        latest_version = latest_number versions b.id;
      }
      ∷ []

  -- `collection_boards cb JOIN boards b ON b.id = cb.board_id`
  unfoldable pub join_boards : Db V → List CollectionBoard → List CollectionBoardEntry
  join_boards db [] = []
  join_boards db (c ∷ cs) =
      listed db.versions c (find (λ b. num_eq b.id c.board_id) db.boards) ++ join_boards db cs

  -- `ORDER BY cb.display_order ASC, b.name ASC`
  abbrev pub displayed_before : Sql V → CollectionBoardEntry → CollectionBoardEntry → Bool
  displayed_before sql b c =
      ltb_ℤ b.display_order c.display_order
      || (eq_ℤ b.display_order c.display_order && sql.name_lt b.name c.name)

  unfoldable pub get_with_boards :
      Sql V → Db V → String → Result (Collection V × List CollectionBoardEntry)
  get_with_boards sql db slug = do
    collection ← get_by_slug db slug
    ok (
      collection,
      order_by (displayed_before sql)
          (join_boards db (keep (λ c. num_eq c.collection_id collection.id) db.collection_boards)),
    )

  abbrev pub updated_collection : DateTime → UpdateCollection V → Collection V → Collection V
  updated_collection now input collection = record collection {
    name = unwrap_or input.name collection.name;
    metadata = resolve input.metadata collection.metadata;
    updated_at = now;
  }

  unfoldable pub update :
      Db V → DateTime → String → UpdateCollection V → Result (Collection V × Db V)
  update db now slug input = do
    on_some input.name validate_name
    collection ← get_by_slug db slug
    let updated = updated_collection now input collection
    ok (
      updated,
      record db {
        collections = map (λ c. if num_eq c.id collection.id then updated else c) db.collections;
      },
    )

  -- DELETE FROM collections, ON DELETE CASCADE to `collection_boards`.
  unfoldable pub delete : Db V → String → Result (Unit {0} × Db V)
  delete db slug = do
    collection ← get_by_slug db slug
    ok (
      tt,
      record db {
        collections = keep (λ c. not (c.slug == slug)) db.collections;
        collection_boards =
            keep (λ c. not (num_eq c.collection_id collection.id)) db.collection_boards;
      },
    )

  unfoldable pub add_board : Db V → String → AddBoardToCollection → Result (Unit {0} × Db V)
  add_board db collection_slug input = do
    collection ← get_by_slug db collection_slug
    board ← Boards.get_by_slug db input.board_slug
    refuse_if (any (is_member collection.id board.id) db.collection_boards)
        (add_error input.board_slug collection_slug unique_violation)
    ok (
      tt,
      record db {
        collection_boards = db.collection_boards ++ new_member collection.id board.id input ∷ [];
      },
    )

  unfoldable pub remove_board : Db V → String → String → Result (Unit {0} × Db V)
  remove_board db collection_slug board_slug = do
    collection ← get_by_slug db collection_slug
    board ← Boards.get_by_slug db board_slug
    refuse_if (not (any (is_member collection.id board.id) db.collection_boards))
        (not_found (not_in_collection board_slug collection_slug))
    ok (
      tt,
      record db {
        collection_boards =
            keep (λ c. not (is_member collection.id board.id c)) db.collection_boards;
      },
    )
