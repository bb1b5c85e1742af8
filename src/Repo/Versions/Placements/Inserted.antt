-- ===== src/Repo/Versions/Placements/Inserted.antt =====
-- The rows that the INSERT loop of `create` in repo/versions.rs adds.
use mathlib.Core.Path.{subst}
use mathlib.Core.List.{append-nil, append_assoc}
use riley_leaderboards.Prelude.{
  ℕ, ◌+◌, ◌≤◌, ◌<◌, ◌≡◌, refl, sym, ap, ◌∙◌, ◌≢◌, ◌&&◌, some, List, [], ◌∷◌, ◌++◌, map, arith,
  num_eq, any, All, Distinct, All-imp, All-map,
}
use riley_leaderboards.Models.{
  refuse_if, ok_or, ok-injective, bind-eq-ok, guard-eq-ok, ok_or-eq-ok, unique_violation, database,
  ok, Uuid, Board, Entry, Placement, CreatePlacement, PlacementWithEntry,
}
use riley_leaderboards.Repo.Versions.Placements.{
  entry_for, new_placement, with_entry, insert_placement, insert_placements,
}

module _ {V : Type 0} where
  pub insert_placement-eq-ok :
      (table : List (Placement V)) (p : Placement V) {table' : List (Placement V)}
      → insert_placement table p ≡ ok table'
      → table ++ p ∷ [] ≡ table'
  unfolding insert_placement
  insert_placement-eq-ok table p h =
      let (_, h) =
        guard-eq-ok
          (refuse_if
            (any (λ q. num_eq q.version_id p.version_id && num_eq q.entry_id p.entry_id) table)
            (database unique_violation))
          _ h in
      ok-injective h

module _ {V : Type 0} (board : Board V) (version_id : Uuid) (ids : ℕ → Uuid)
    (entries : List (Entry V)) where
  -- The rows and the answer for the placements from the i-th on: each placement has one row, for
  -- the board's entry with its slug.
  abbrev pub Placed :
      ℕ → List (CreatePlacement V) → List (Placement V) → List (PlacementWithEntry V) → Type 0
  Placed i [] [] [] = Unit
  Placed i (p ∷ ps) (q ∷ qs) (r ∷ rs) =
      ((e : Entry V) × (entry_for entries board.id p.entry_slug ≡ some e)
        × (q ≡ new_placement board version_id (ids i) i e p)
        × (r ≡ with_entry q e))
      × Placed (i + 1) ps qs rs
  Placed i _ _ _ = ⊥

  -- The loop appends the rows of the placements to the table.
  pub insert_placements-eq-ok :
      (i : ℕ) (ps : List (CreatePlacement V)) (table : List (Placement V))
      (rows : List (PlacementWithEntry V)) (table' : List (Placement V))
      → insert_placements board version_id ids entries i ps table ≡ ok (rows, table')
      → (new : List (Placement V)) × (table' ≡ table ++ new) × Placed i ps new rows
  unfolding insert_placements
  insert_placements-eq-ok i [] table rows table' h =
      let e = ok-injective h in
      let e₀ : [] ≡ rows = ap (λ (t : List (PlacementWithEntry V) × List (Placement V)). t.0) e in
      let e₁ : table ≡ table' =
        ap (λ (t : List (PlacementWithEntry V) × List (Placement V)). t.1) e in
      ([], sym e₁ ∙ sym (append-nil table), subst (Placed i [] []) e₀ tt)
  insert_placements-eq-ok i (p ∷ ps) table rows table' h =
      let (e, found, h) = bind-eq-ok (ok_or (entry_for entries board.id p.entry_slug) _) _ h in
      let row = new_placement board version_id (ids i) i e p in
      let (table₁, added, h) = bind-eq-ok (insert_placement table row) _ h in
      let ((rest, table₂), later, h) =
        bind-eq-ok (insert_placements board version_id ids entries (i + 1) ps table₁) _ h in
      let (new, appended, placed) = insert_placements-eq-ok (i + 1) ps table₁ rest table₂ later in
      let q = ok-injective h in
      let q₀ : with_entry row e ∷ rest ≡ rows =
        ap (λ (t : List (PlacementWithEntry V) × List (Placement V)). t.0) q in
      let q₁ : table₂ ≡ table' =
        ap (λ (t : List (PlacementWithEntry V) × List (Placement V)). t.1) q in
      (
        row ∷ new,
        sym q₁
            ∙ appended
            ∙ ap (λ l. l ++ new) (sym (insert_placement-eq-ok table row added))
            ∙ append_assoc table (row ∷ []) new,
        subst (Placed i (p ∷ ps) (row ∷ new)) q₀ ((e, ok_or-eq-ok _ _ found, refl, refl), placed),
      )

  -- Every new row belongs to the version.
  pub Placed-version :
      (i : ℕ) (ps : List (CreatePlacement V)) (new : List (Placement V))
      (rows : List (PlacementWithEntry V))
      → Placed i ps new rows
      → All (λ q. q.version_id ≡ version_id) new
  Placed-version i [] [] [] h = tt
  Placed-version i (p ∷ ps) (q ∷ new) (r ∷ rows) ((e, found, same, _), h) =
      (ap (λ (x : Placement V). x.version_id) same, Placed-version (i + 1) ps new rows h)
  Placed-version i [] [] (_ ∷ _) h = absurd h
  Placed-version i [] (_ ∷ _) rows h = absurd h
  Placed-version i (_ ∷ _) [] rows h = absurd h
  Placed-version i (_ ∷ _) (_ ∷ _) [] h = absurd h

  -- The new rows have the keys that Postgres made for them.
  pub Placed-ids :
      (i : ℕ) (ps : List (CreatePlacement V)) (new : List (Placement V))
      (rows : List (PlacementWithEntry V))
      → Placed i ps new rows
      → All (λ q. (j : ℕ) × (i ≤ j) × (q.id ≡ ids j)) new
  Placed-ids i [] [] [] h = tt
  Placed-ids i (p ∷ ps) (q ∷ new) (r ∷ rows) ((e, found, same, _), h) = (
    (i, omega arith, ap (λ (x : Placement V). x.id) same),
    All-imp (λ x g. (g.0, omega (arith, g.1), g.2)) new (Placed-ids (i + 1) ps new rows h),
  )
  Placed-ids i [] [] (_ ∷ _) h = absurd h
  Placed-ids i [] (_ ∷ _) rows h = absurd h
  Placed-ids i (_ ∷ _) [] rows h = absurd h
  Placed-ids i (_ ∷ _) (_ ∷ _) [] h = absurd h

  module _ (apart : (i j : ℕ) → i < j → ids i ≢ ids j) where
    pub Placed-Distinct :
        (i : ℕ) (ps : List (CreatePlacement V)) (new : List (Placement V))
        (rows : List (PlacementWithEntry V))
        → Placed i ps new rows
        → Distinct (map (λ q. q.id) new)
    Placed-Distinct i [] [] [] h = tt
    Placed-Distinct i (p ∷ ps) (q ∷ new) (r ∷ rows) ((e, found, same, _), h) = (
      All-map (λ q. q.id) (λ b. b ≢ q.id) new
          (All-imp
            (λ x g k.
              apart i g.0 (omega (arith, g.1))
                (sym (ap (λ (y : Placement V). y.id) same) ∙ sym k ∙ g.2))
            new (Placed-ids (i + 1) ps new rows h)),
      Placed-Distinct (i + 1) ps new rows h,
    )
    Placed-Distinct i [] [] (_ ∷ _) h = absurd h
    Placed-Distinct i [] (_ ∷ _) rows h = absurd h
    Placed-Distinct i (_ ∷ _) [] rows h = absurd h
    Placed-Distinct i (_ ∷ _) (_ ∷ _) [] h = absurd h
