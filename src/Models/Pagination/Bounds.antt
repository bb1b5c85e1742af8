-- ===== src/Models/Pagination/Bounds.antt =====
-- How long a page of models.rs and repo/ gets.
use mathlib.Core.Path.{subst}
use riley_leaderboards.Prelude.{
  ℕ, zero, suc, ◌+◌, ◌≤◌, ◌≡◌, Bool, List, [], ◌∷◌, arith, unwrap_or, length, take, ℤ, pos, negsuc,
}
use riley_leaderboards.Models.Errors.{ok, bind-eq-ok, ok-injective}
use riley_leaderboards.Models.Boards.{Uuid, DateTime}
use riley_leaderboards.Models.Pagination.{
  CursorText, PaginationParams, PaginatedResponse, clamp_limit, effective_limit, decode_cursor,
  in_order, after_cursor, paginate,
}

clamp_limit-bound : (i : ℤ) → clamp_limit i ≤ 200
clamp_limit-bound (pos n) = ground arith
clamp_limit-bound (negsuc n) = omega arith

length-take : {A : Type 0} (n : ℕ) (xs : List A) → length (take n xs) ≤ n
length-take zero xs = omega arith
length-take (suc n) [] = omega arith
length-take (suc n) (x ∷ xs) = omega (arith, length-take n xs)

-- Whatever limit a client asks for, a page has at most 200 rows.
pub paginate-bounds :
    {A : Type 0} (key : A → DateTime × Uuid) (before : DateTime × Uuid → DateTime × Uuid → Bool)
    (text : CursorText) (params : PaginationParams) (rows : List A) {page : PaginatedResponse A}
    → paginate key before text params rows ≡ ok page
    → length page.items ≤ 200
unfolding paginate effective_limit
paginate-bounds {A} key before text params rows h =
    let limit = effective_limit params in
    let (c, _, k) = bind-eq-ok (decode_cursor text params) _ h in
    let left = take (limit + 1) (in_order key before (after_cursor key before c rows)) in
    subst (λ (p : PaginatedResponse A). length p.items ≤ 200) (ok-injective k)
      (omega (arith, length-take limit left, clamp_limit-bound (unwrap_or params.limit (pos 50))))
