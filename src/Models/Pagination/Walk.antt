-- ===== src/Models/Pagination/Walk.antt =====
-- Following the cursors that `paginate` of models.rs and repo/ gives out.
use Prim.Native.String.{◌++◌ as append}
use Prim.Native.String.append.{nil as append_nil, cons as append_cons}
use Prim.Native.Char.{code}
use riley_leaderboards.Prelude.Rank.{length-order_by, order_by}
use mathlib.Core.List.{append-nil}
use mathlib.Core.Path.{subst}
use riley_leaderboards.Prelude.{
  ℕ, zero, suc, ◌+◌, ◌≤◌, String, ◌≡◌, refl, sym, ap, ◌∙◌, ◌≢◌, inl, inr, Bool, true, false, Option,
  none, some, List, [], ◌∷◌, ◌++◌, map, arith, ltb, num_eq, if◌then◌else◌, Bool-cases, Option-cases,
  unwrap_or, and_then, length, take, drop, last, all, keep, In, All, ℤ, pos, negsuc, Distinct,
  All-In, All-keep_passes, Distinct-map-keep,
}
use riley_leaderboards.Models.Errors.{Result, ok, ◌>>=◌}
use riley_leaderboards.Models.Boards.{Uuid, DateTime}
use riley_leaderboards.Models.Pagination.{
  CursorText, PaginationParams, clamp_limit, effective_limit, split_comma, decode_cursor,
  encode_cursor, older, in_order, after_cursor, paginate,
}
use riley_leaderboards.Models.Pagination.Sorted.{
  IsStrictTotal, take-drop, length-drop, take-all, last-take, In-last-take, keep-keep, take-take,
  ltb-length-take, order_by-keep, Increasing, Increasing-order_by, keep-last-take,
}

-- What the code relies on: printed times and keys parse again, and no time is printed with a comma.
pub record IsFaithful (text : CursorText) : Type 0 where
  pub time : (t : DateTime) → text.parse_time (text.print_time t) ≡ some t
  pub id : (i : Uuid) → text.parse_id (text.print_id i) ≡ some i
  pub comma : (t : DateTime) → split_comma (text.print_time t) ≡ none

older-connex : (a b : DateTime × Uuid) → older a b ≡ false → older b a ≡ false → a ≡ b
older-connex (t, i) (u, j) h l =
    let same_time : t ≡ u = ground arith in let same_id : i ≡ j = ground arith in cc

pub older-IsStrictTotal : IsStrictTotal older
older-IsStrictTotal = record {
  asymm = λ (t, i) (u, j) h. ground arith;
  trans = λ (t, i) (u, j) (v, k) h l. ground arith;
  connex = older-connex;
}

-- The opposite order, in which boards and versions are listed.
pub newer-IsStrictTotal : IsStrictTotal (λ a b. older b a)
newer-IsStrictTotal = record {
  asymm = λ a b h. older-IsStrictTotal.asymm b a h;
  trans = λ a b c h l. older-IsStrictTotal.trans c b a l h;
  connex = λ a b h l. older-connex a b l h;
}

some-ne-none : {A : Type 0} {a : A} → none ≢ some a
some-ne-none h = cc

split_comma-append :
    (s t : String) → split_comma s ≡ none → split_comma (append s (String.◌∷◌ "," t)) ≡ some (s, t)
unfolding split_comma
split_comma-append String.[] t h = rw (append_nil (String.◌∷◌ "," t))
split_comma-append (String.◌∷◌ c s) t h = elim (Bool-cases (num_eq (code c) b',')) [
  | inl e ↦ absurd (some-ne-none (sym (rw e at h)))
  | inr e ↦ elim (Option-cases (split_comma s)) [
    | inl n ↦ rw (append_cons c s (String.◌∷◌ "," t), e, split_comma-append s t n)
    | inr (q, n) ↦ absurd (some-ne-none (sym (rw (e, n) at h)))
  ]
]

module _ (text : CursorText) (faithful : IsFaithful text) where
  -- Where printed times and keys parse back and no time is printed with a comma, a cursor that
  -- was given out leads back to the key that it was made of.
  pub decode_cursor-encode_cursor :
      (limit : Option ℤ) (k : DateTime × Uuid)
      → decode_cursor text (record { limit = limit; cursor = some (encode_cursor text k) })
        ≡ ok (some k)
  unfolding decode_cursor encode_cursor
  decode_cursor-encode_cursor limit (t, i) = rw (
    split_comma-append (text.print_time t) (text.print_id i) (faithful.comma t),
    faithful.time t,
    faithful.id i,
  )

clamp_limit-pos : (i : ℤ) → 1 ≤ clamp_limit i
clamp_limit-pos (pos n) = ground arith
clamp_limit-pos (negsuc n) = omega arith

suc_of : (n : ℕ) → 1 ≤ n → (m : ℕ) × (n ≡ suc m)
suc_of zero h = absurd (omega (arith, h))
suc_of (suc m) h = (m, refl)

module _ {A : Type 0} (key : A → DateTime × Uuid)
    (before : DateTime × Uuid → DateTime × Uuid → Bool) (text : CursorText) (limit : Option ℤ)
    (rows : List A) where
  abbrev pub params : Option String → PaginationParams
  params cursor = record { limit = limit; cursor = cursor }

  -- A client that asks for the page at a cursor and for those after it, at most `n` pages.
  unfoldable pub follow : ℕ → Option String → Result (List A)
  follow zero cursor = ok []
  follow (suc n) cursor = do
    page ← paginate key before text (params cursor) rows
    rest ← elim page.next_cursor [ none ↦ ok [] | some c ↦ follow n (some c) ]
    ok (page.items ++ rest)

  abbrev size : ℕ
  size = clamp_limit (unwrap_or limit (pos 50))

  -- The page at a cursor, by the rows that are left there.
  page_of :
      (cursor : Option String) (c : Option (DateTime × Uuid)) (r : List A)
      → decode_cursor text (params cursor) ≡ ok c
      → in_order key before (after_cursor key before c rows) ≡ r
      → paginate key before text (params cursor) rows
        ≡ ok (record {
          items = take size r;
          next_cursor =
              if ltb size (length r)
              then and_then (last (take size r)) (λ a. some (encode_cursor text (key a)))
              else none;
        })
  unfolding paginate effective_limit
  page_of cursor c r d e = rw (
    d,
    e,
    take-take size (size + 1) r (omega arith),
    ltb-length-take size (size + 1) r (omega arith),
  )

  module _ (strict : IsStrictTotal before) (faithful : IsFaithful text)
      (distinct : Distinct (map key rows)) where
    behind : A → A → Bool
    behind x a = before (key x) (key a)

    left_behind :
        (c : Option (DateTime × Uuid)) (r : List A) (x : A)
        → in_order key before (after_cursor key before c rows) ≡ r
        → In x r
        → in_order key before (keep (behind x) rows) ≡ keep (behind x) r
    unfolding behind
    left_behind none r x e m =
        order_by-keep (λ a b. before (key a) (key b)) (behind x)
          (λ a b. strict.trans (key x) (key a) (key b)) rows
        ∙ ap (keep (behind x)) e
    left_behind (some k) r x e m =
        let q : A → Bool = λ a. before k (key a) in
        let filtered =
          order_by-keep (λ a b. before (key a) (key b)) q (λ a b. strict.trans k (key a) (key b))
            rows in
        let sorted = order_by (λ a b. before (key a) (key b)) rows in
        let passed : before k (key x) ≡ true =
          All-In (λ a. q a ≡ true) r x
            (subst (All (λ a. q a ≡ true)) (sym filtered ∙ e) (All-keep_passes q sorted)) m in
        order_by-keep (λ a b. before (key a) (key b)) (behind x)
          (λ a b. strict.trans (key x) (key a) (key b)) rows
        ∙ sym (keep-keep (behind x) q sorted (λ a. strict.trans k (key x) (key a) passed))
        ∙ ap (keep (behind x)) (sym filtered ∙ e)

    left-Increasing :
        (c : Option (DateTime × Uuid)) (r : List A)
        → in_order key before (after_cursor key before c rows) ≡ r
        → Increasing key before strict r
    left-Increasing none r e =
        subst (Increasing key before strict) e (Increasing-order_by key before strict rows distinct)
    left-Increasing (some k) r e =
        let q : A → Bool = λ a. before k (key a) in
        subst (Increasing key before strict) e (
          Increasing-order_by key before strict (keep q rows)
            (Distinct-map-keep key q rows distinct))

    walk :
        (n : ℕ) (cursor : Option String) (c : Option (DateTime × Uuid)) (r : List A)
        → decode_cursor text (params cursor) ≡ ok c
        → in_order key before (after_cursor key before c rows) ≡ r
        → length r ≤ n
        → follow n cursor ≡ ok r
    unfolding follow behind
    walk zero cursor c [] d e h = refl
    walk zero cursor c (x ∷ r) d e h = absurd (omega (arith, h))
    walk (suc n) cursor c r d e h = elim (Bool-cases (ltb size (length r))) [
      | inl more ↦
          let at_least : 1 ≤ size = clamp_limit-pos (unwrap_or limit (pos 50)) in
          let (m, q) = suc_of size at_least in
          let (x, found) = last-take m r (ground (arith, more, q)) in
          let found_at : last (take size r) ≡ some x = ap (λ k. last (take k r)) q ∙ found in
          let rest : follow n (some (encode_cursor text (key x))) ≡ ok (drop size r) =
            walk n (some (encode_cursor text (key x))) (some (key x)) (drop size r)
              (decode_cursor-encode_cursor text faithful limit (key x))
              (left_behind c r x e (In-last-take size r found_at)
                ∙ keep-last-take key before strict m r x (left-Increasing c r e) found
                ∙ ap (λ k. drop k r) (sym q))
              (omega (arith, length-drop size r, h, at_least)) in
          rw (page_of cursor c r d e, more, found_at, rest) (ap ok (take-drop size r))
      | inr all ↦
          rw (page_of cursor c r d e, all)
            (ap ok (append-nil (take size r) ∙ take-all size r (ground (arith, all))))
    ]

    -- Where the keys of the rows are distinct, the order of keys is strict and total, and
    -- printed cursors parse back, following the cursors from the first page on, with as many
    -- requests as there are rows or more, gives every row once, in the order of the listing.
    pub follow-eq_in_order :
        (n : ℕ) → length rows ≤ n → follow n none ≡ ok (in_order key before rows)
    unfolding decode_cursor
    follow-eq_in_order n h =
        walk n none none (in_order key before rows) refl refl
          (subst (λ k. k ≤ n) (sym (length-order_by (λ a b. before (key a) (key b)) rows)) h)
