-- ===== src/Repo/References.antt =====
-- crates/riley-leaderboards-core/src/repo/references.rs: where a board or a version is used.
pub mod Removal
use riley_leaderboards.Prelude.{
  String, Bool, not, ◌&&◌, ◌||◌, Option, none, some, List, [], ◌∷◌, ◌++◌, map, ◌==◌, ltb, num_eq,
  if◌then◌else◌, and_then, length, any, keep, find, ℤ, eq_ℤ, pos, bytes,
}
use riley_leaderboards.Prelude.Rank.{order_by}
use riley_leaderboards.Models.{
  Result, ◌>>=◌, ◌>>◌, refuse_if, ok_or, invalid_ref_type, uri_empty, uri_long, label_long,
  reference_missing, version_not_on_board, foreign_key_violation, database, not_found, validation,
  ok, err, Uuid, DateTime, Version, BoardReference, CreateReference,
}
use riley_leaderboards.Models.Pagination.{
  CursorText, PaginationParams, PaginatedResponse, older, paginate,
}
use riley_leaderboards.Db.{Db, ReferenceRow}

unfoldable pub validate_ref_type : String → Result (Unit {0})
validate_ref_type ref_type =
    if ref_type == "embed" || ref_type == "citation" || ref_type == "context"
    then ok tt
    else err (validation (invalid_ref_type ref_type))

unfoldable pub validate_uri : String → Result (Unit {0})
validate_uri uri = do
  refuse_if (num_eq (length (bytes uri)) 0) (validation uri_empty)
  refuse_if (ltb 2048 (length (bytes uri))) (validation uri_long)
  ok tt

unfoldable pub validate_label : Option String → Result (Unit {0})
validate_label none = ok tt
validate_label (some l) = refuse_if (ltb 256 (length (bytes l))) (validation label_long)

abbrev pub new_reference : Uuid → DateTime → Uuid → Option Uuid → CreateReference → ReferenceRow
new_reference id now board_id pinned input = record {
  id = id;
  board_id = board_id;
  pinned_version_id = pinned;
  uri = input.uri;
  ref_type = input.ref_type;
  label = input.label;
  created_at = now;
}

abbrev pub is_reference : Uuid → Uuid → ReferenceRow → Bool
is_reference board_id reference_id r = num_eq r.id reference_id && num_eq r.board_id board_id

module _ {V : Type 0} where
  abbrev pub version_id_of : Option (Version V) → Option Uuid
  version_id_of none = none
  version_id_of (some v) = some v.id

  -- The id of the pinned version, where a number is given.
  unfoldable pub resolve_pinned : Db V → Uuid → Option ℤ → Result (Option Uuid)
  resolve_pinned db board_id none = ok none
  resolve_pinned db board_id (some num) = do
    v ←
        ok_or
          (find (λ v. num_eq v.board_id board_id && eq_ℤ (pos v.version_number) num) db.versions)
          (not_found (version_not_on_board num))
    ok (some v.id)

  -- LEFT JOIN versions v ON v.id = pinned_version_id
  unfoldable pub with_number : Db V → ReferenceRow → BoardReference
  with_number db row = record {
    id = row.id;
    board_id = row.board_id;
    pinned_version_id = row.pinned_version_id;
    pinned_version_number =
        and_then row.pinned_version_id
          λ id. and_then (find (λ v. num_eq v.id id) db.versions) λ v. some v.version_number;
    uri = row.uri;
    ref_type = row.ref_type;
    label = row.label;
    created_at = row.created_at;
  }

  unfoldable pub create :
      Db V → Uuid → DateTime → Uuid → CreateReference → Result (BoardReference × Db V)
  create db id now board_id input = do
    validate_ref_type input.ref_type
    validate_uri input.uri
    validate_label input.label
    pinned ← resolve_pinned db board_id input.pinned_version_number
    refuse_if (not (any (λ b. num_eq b.id board_id) db.boards)) (database foreign_key_violation)
    let row = new_reference id now board_id pinned input
    ok (with_number db row, record db { board_references = db.board_references ++ row ∷ [] })

  unfoldable pub list : Db V → Uuid → List BoardReference
  list db board_id = map (with_number db) (
      order_by (λ r s. ltb r.created_at s.created_at)
        (keep (λ r. num_eq r.board_id board_id) db.board_references))

  unfoldable pub list_paginated :
      CursorText → Db V → Uuid → PaginationParams → Result (PaginatedResponse BoardReference)
  list_paginated text db board_id params =
      paginate (λ r. (r.created_at, r.id)) older text params
        (map (with_number db) (keep (λ r. num_eq r.board_id board_id) db.board_references))

  unfoldable pub delete : Db V → Uuid → Uuid → Result (Unit {0} × Db V)
  delete db board_id reference_id = do
    refuse_if (not (any (is_reference board_id reference_id) db.board_references))
        (not_found (reference_missing reference_id))
    ok (
      tt,
      record db {
        board_references =
            keep (λ r. not (is_reference board_id reference_id r)) db.board_references;
      },
    )
