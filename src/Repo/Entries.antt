-- ===== src/Repo/Entries.antt =====
-- crates/riley-leaderboards-core/src/repo/entries.rs: the entries of a board.
pub mod Deletion
use riley_leaderboards.Prelude.{
  ℕ, ◌+◌, String, not, ◌&&◌, Option, none, some, List, [], ◌∷◌, ◌++◌, map, ◌==◌, ltb, num_eq,
  if◌then◌else◌, is_some, unwrap_or, take, any, keep, find,
}
use riley_leaderboards.Prelude.Rank.{order_by}
use riley_leaderboards.Models.{
  DbError, Error, Result, ◌>>=◌, ◌>>◌, refuse_if, ok_or, entry_has_placements, entry_missing,
  entry_exists, entry_id_missing, unique_violation, foreign_key_violation, database, not_found,
  conflict, ok, Uuid, DateTime, resolve, Entry, CreateEntry, UpdateEntry, EntryHistoryItem, Version,
  Placement,
}
use riley_leaderboards.Models.Pagination.{
  CursorText, PaginationParams, PaginatedResponse, older, paginate,
}
use riley_leaderboards.Db.{Db}
use riley_leaderboards.Repo.{validate_slug, validate_name}
use riley_leaderboards.Repo.Boards.{on_some}

-- `map_err` of the INSERT
abbrev pub create_error : String → DbError → Error
create_error slug unique_violation = conflict (entry_exists slug)
create_error slug e = database e

-- `count(DISTINCT version_id)`
abbrev pub count_distinct : List ℕ → ℕ
count_distinct [] = 0
count_distinct (i ∷ is) =
    let rest = count_distinct is in if any (λ j. num_eq j i) is then rest else rest + 1

module _ {V : Type 0} where
  abbrev pub find_entry : Db V → Uuid → String → Option (Entry V)
  find_entry db board_id slug = find (λ e. num_eq e.board_id board_id && e.slug == slug) db.entries

  -- INSERT INTO entries: the reference to the board, then UNIQUE (board_id, slug).
  unfoldable pub insert_entry : (DbError → Error) → Db V → Entry V → Result (Entry V × Db V)
  insert_entry map_err db entry = do
    refuse_if (is_some (find_entry db entry.board_id entry.slug)) (map_err unique_violation)
    refuse_if (not (any (λ b. num_eq b.id entry.board_id) db.boards))
        (map_err foreign_key_violation)
    ok (entry, record db { entries = db.entries ++ entry ∷ [] })

  unfoldable pub create : Db V → Uuid → DateTime → Uuid → CreateEntry V → Result (Entry V × Db V)
  create db id now board_id input = do
    validate_slug input.slug
    validate_name input.name
    insert_entry (create_error input.slug) db (record {
      id = id;
      board_id = board_id;
      slug = input.slug;
      name = input.name;
      metadata = input.metadata;
      created_at = now;
      updated_at = now;
    })

  unfoldable pub list : Db V → Uuid → List (Entry V)
  list db board_id =
      order_by (λ e f. ltb e.created_at f.created_at)
        (keep (λ e. num_eq e.board_id board_id) db.entries)

  unfoldable pub list_paginated :
      CursorText → Db V → Uuid → PaginationParams → Result (PaginatedResponse (Entry V))
  list_paginated text db board_id params =
      paginate (λ e. (e.created_at, e.id)) older text params
        (keep (λ e. num_eq e.board_id board_id) db.entries)

  unfoldable pub get_by_slug : Db V → Uuid → String → Result (Entry V)
  get_by_slug db board_id slug =
      ok_or (find_entry db board_id slug) (not_found (entry_missing slug))

  unfoldable pub get_by_id : Db V → Uuid → Result (Entry V)
  get_by_id db id = ok_or (find (λ e. num_eq e.id id) db.entries) (not_found (entry_id_missing id))

  abbrev pub updated_entry : DateTime → UpdateEntry V → Entry V → Entry V
  updated_entry now input entry = record entry {
    name = unwrap_or input.name entry.name;
    metadata = resolve input.metadata entry.metadata;
    updated_at = now;
  }

  unfoldable pub update : Db V → DateTime → Uuid → String → UpdateEntry V → Result (Entry V × Db V)
  update db now board_id slug input = do
    on_some input.name validate_name
    entry ← get_by_slug db board_id slug
    let updated = updated_entry now input entry
    ok (
      updated,
      record db { entries = map (λ e. if num_eq e.id entry.id then updated else e) db.entries },
    )

  -- ON DELETE CASCADE from `entries`
  abbrev pub cascade_entry : Uuid → Db V → Db V
  cascade_entry id db = record db {
    entries = keep (λ e. not (num_eq e.id id)) db.entries;
    placements = keep (λ p. not (num_eq p.entry_id id)) db.placements;
    accumulated_scores = keep (λ s. not (num_eq s.entry_id id)) db.accumulated_scores;
  }

  unfoldable pub version_count : Db V → Uuid → ℕ
  version_count db id =
      count_distinct (map (λ p. p.version_id) (keep (λ p. num_eq p.entry_id id) db.placements))

  unfoldable pub delete : Db V → Uuid → String → Result (Unit {0} × Db V)
  delete db board_id slug = do
    entry ← get_by_slug db board_id slug
    let n = version_count db entry.id
    refuse_if (ltb 0 n) (conflict (entry_has_placements slug n))
    ok (tt, cascade_entry entry.id db)

  -- `placements p JOIN versions v ON v.id = p.version_id`
  abbrev history_row : Placement V → Option (Version V) → List (EntryHistoryItem V)
  history_row p none = []
  history_row p (some v) =
      record {
        version_number = v.version_number;
        position = p.position;
        score = p.score;
        tier = p.tier;
        metadata = p.metadata;
        created_at = v.created_at;
      }
      ∷ []

  unfoldable pub join_versions : List (Version V) → List (Placement V) → List (EntryHistoryItem V)
  join_versions versions [] = []
  join_versions versions (p ∷ ps) =
      history_row p (find (λ v. num_eq v.id p.version_id) versions) ++ join_versions versions ps

  -- The limit is what the route passes, a positive number.
  unfoldable pub history : Db V → Uuid → String → ℕ → Result (List (EntryHistoryItem V))
  history db board_id entry_slug limit = do
    entry ← get_by_slug db board_id entry_slug
    ok (
        take limit (
          order_by (λ a b. ltb a.version_number b.version_number)
            (join_versions db.versions (keep (λ p. num_eq p.entry_id entry.id) db.placements))))
