-- ===== src/Tests/Pages.antt =====
-- Pages of a concrete listing.
use riley_leaderboards.Prelude.{
  ℕ, zero, suc, ◌≤◌, String, ◌≡◌, refl, ap, Option, none, some, List, [], ◌∷◌, map, arith, and_then,
  length, pos, Distinct,
}
use riley_leaderboards.Models.{ok, Uuid, DateTime, Entry}
use riley_leaderboards.Models.Pagination.{
  CursorText, PaginationParams, decode_cursor, encode_cursor, older, in_order, paginate,
  split_comma, effective_limit,
}
use riley_leaderboards.Models.Pagination.Bounds.{paginate-bounds}
use riley_leaderboards.Models.Pagination.Walk.{
  IsFaithful, older-IsStrictTotal, decode_cursor-encode_cursor, follow, follow-eq_in_order,
}
use riley_leaderboards.Prelude.Rank.{place, order_by}
use riley_leaderboards.Tests.Base.{docs, player}

-- Times and keys as rows of strokes.
abbrev strokes : ℕ → String
strokes zero = String.[]
strokes (suc n) = String.◌∷◌ "i" (strokes n)

abbrev count_strokes : String → Option ℕ
count_strokes String.[] = some 0
count_strokes (String.◌∷◌ c s) = and_then (count_strokes s) λ n. some (suc n)

abbrev text : CursorText
text = record {
  print_time = strokes;
  parse_time = count_strokes;
  print_id = strokes;
  parse_id = count_strokes;
}

count_strokes-strokes : (n : ℕ) → count_strokes (strokes n) ≡ some n
count_strokes-strokes zero = refl
count_strokes-strokes (suc n) = rw (count_strokes-strokes n)

split_comma-strokes : (n : ℕ) → split_comma (strokes n) ≡ none
unfolding split_comma
split_comma-strokes zero = refl
split_comma-strokes (suc n) = rw (split_comma-strokes n)

text-IsFaithful : IsFaithful text
text-IsFaithful = record {
  time = count_strokes-strokes;
  id = count_strokes-strokes;
  comma = split_comma-strokes;
}

abbrev key : Entry docs.Value → DateTime × Uuid
key e = (e.created_at, e.id)

abbrev three_players : List (Entry docs.Value)
three_players = player 13 "cid" ∷ player 11 "ann" ∷ player 12 "bob" ∷ []

keys-Distinct : Distinct (map key three_players)
keys-Distinct = (
  (
    λ e. omega (arith, ap (λ (k : DateTime × Uuid). k.1) e),
    (λ e. omega (arith, ap (λ (k : DateTime × Uuid). k.1) e), tt),
  ),
  ((λ e. omega (arith, ap (λ (k : DateTime × Uuid). k.1) e), tt), (tt, tt)),
)

first_page :
    paginate key older text (record { limit = some (pos 2); cursor = none }) three_players
    ≡ ok (record {
      items = player 11 "ann" ∷ player 12 "bob" ∷ [];
      next_cursor = some (encode_cursor text (101, 12));
    })
unfolding paginate effective_limit decode_cursor order_by place
first_page = refl

decode_cursor-encode_cursor_example :
    decode_cursor text (record { limit = none; cursor = some (encode_cursor text (3, 4)) })
    ≡ ok (some (3, 4))
decode_cursor-encode_cursor_example = decode_cursor-encode_cursor text text-IsFaithful none (3, 4)

follow-eq_in_order_example :
    follow key older text (some (pos 2)) three_players 3 none
    ≡ ok (in_order key older three_players)
follow-eq_in_order_example =
    follow-eq_in_order key older text (some (pos 2)) three_players older-IsStrictTotal
      text-IsFaithful keys-Distinct 3 (omega arith)

abbrev two_at_once : PaginationParams
two_at_once = record { limit = some (pos 2); cursor = none }

paginate-bounds_example : length (player 11 "ann" ∷ player 12 "bob" ∷ []) ≤ 200
paginate-bounds_example = paginate-bounds key older text two_at_once three_players first_page
