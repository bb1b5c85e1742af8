-- ===== src/Models/Pagination.antt =====
-- models.rs: page limits and cursors, and the page that each `list_paginated` of repo/ cuts.
-- The texts of times (`chrono`) and of keys (`uuid`) are a parameter.
pub mod Sorted
pub mod Walk
pub mod Bounds
use Prim.Native.Char.{code}
use Prim.Native.String.{◌++◌ as append}
use riley_leaderboards.Prelude.{
  ℕ, ◌+◌, String, Bool, ◌&&◌, ◌||◌, Option, none, some, List, ltb, num_eq, if◌then◌else◌, unwrap_or,
  and_then, length, take, last, keep, ℤ, pos, negsuc,
}
use riley_leaderboards.Prelude.Rank.{order_by}
use riley_leaderboards.Models.Errors.{
  Result, ok, err, ◌>>=◌, ok_or, validation, cursor_format, cursor_timestamp, cursor_id,
}
use riley_leaderboards.Models.Boards.{Uuid, DateTime}

-- `DateTime::to_rfc3339` and `parse`, and `Uuid`'s `Display` and `parse`.
pub record CursorText : Type 0 where
  pub print_time : DateTime → String
  pub parse_time : String → Option DateTime
  pub print_id : Uuid → String
  pub parse_id : String → Option Uuid

pub record PaginationParams : Type 0 where
  pub limit : Option ℤ
  pub cursor : Option String

-- `clamp(1, MAX_PAGE_LIMIT)`
abbrev pub clamp_limit : ℤ → ℕ
clamp_limit (pos n) = if ltb n 1 then 1 else if ltb 200 n then 200 else n
clamp_limit (negsuc n) = 1

unfoldable pub effective_limit : PaginationParams → ℕ
effective_limit params = clamp_limit (unwrap_or params.limit (pos 50))

-- `splitn(2, ',')`, where it gives two parts.
unfoldable pub split_comma : String → Option (String × String)
split_comma String.[] = none
split_comma (String.◌∷◌ c s) =
    let rest = split_comma s in
    if num_eq (code c) b','
    then some (String.[], s)
    else and_then rest λ (a, b). some (String.◌∷◌ c a, b)

module _ (text : CursorText) where
  abbrev parse_parts : Option (String × String) → Result (DateTime × Uuid)
  parse_parts none = err (validation cursor_format)
  parse_parts (some (a, b)) = do
    ts ← ok_or (text.parse_time a) (validation cursor_timestamp)
    id ← ok_or (text.parse_id b) (validation cursor_id)
    ok (ts, id)

  abbrev decode_given : Option String → Result (Option (DateTime × Uuid))
  decode_given none = ok none
  decode_given (some cursor) = do parts ← parse_parts (split_comma cursor); ok (some parts)

  unfoldable pub decode_cursor : PaginationParams → Result (Option (DateTime × Uuid))
  decode_cursor params = decode_given params.cursor

  unfoldable pub encode_cursor : DateTime × Uuid → String
  encode_cursor (created_at, id) =
      append (text.print_time created_at) (String.◌∷◌ "," (text.print_id id))

-- Keys of pages, oldest first.
abbrev pub older : DateTime × Uuid → DateTime × Uuid → Bool
older (t, i) (u, j) = ltb t u || (num_eq t u && ltb i j)

module _ (A : Type 0) where
  pub record PaginatedResponse : Type 0 where
    pub items : List A
    pub next_cursor : Option String

module _ {A : Type 0} (key : A → DateTime × Uuid)
    (before : DateTime × Uuid → DateTime × Uuid → Bool) where
  -- ORDER BY created_at, id, in the direction of `before`.
  abbrev pub in_order : List A → List A
  in_order rows = order_by (λ a b. before (key a) (key b)) rows

  -- The rows behind the cursor, if there is one.
  abbrev pub after_cursor : Option (DateTime × Uuid) → List A → List A
  after_cursor none rows = rows
  after_cursor (some c) rows = keep (λ a. before c (key a)) rows

  -- `next_cursor`: the key of the last of the items, where there is a row more.
  abbrev pub cut_page : CursorText → ℕ → List A → PaginatedResponse A
  cut_page text limit rows = record {
    items = take limit rows;
    next_cursor =
        if ltb limit (length rows)
        then and_then (last (take limit rows)) (λ a. some (encode_cursor text (key a)))
        else none;
  }

  -- The body that the `list_paginated` share, on the rows that their WHERE clause selects.
  unfoldable pub paginate : CursorText → PaginationParams → List A → Result (PaginatedResponse A)
  paginate text params rows = do
    let limit = effective_limit params
    cursor ← decode_cursor text params
    ok (cut_page text limit (take (limit + 1) (in_order (after_cursor cursor rows))))
