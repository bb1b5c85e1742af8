-- ===== src/Repo/Export/Reads.antt =====
-- The queries of an export and of a version of it in crates/riley-leaderboards-core/src/repo: the
-- rows that they share, and when Postgres refuses them.
use mathlib.Core.Path.{subst}
use riley_leaderboards.Prelude.{
  ℕ, ◌≡◌, refl, inl, inr, Bool, true, false, not, ◌&&◌, Option, none, List, [], ◌∷◌, map, arith,
  num_eq, num_eq_iff, if◌then◌else◌, Bool-cases, Option-cases, is_some, any, keep, find, In, All,
  Distinct, In-find, find-passes, All-of-any-false, All-keep, All-map, eq_of_key,
}
use riley_leaderboards.Prelude.Rank.{order_by}
use riley_leaderboards.Models.{
  invalid_value, database, ok, err, Uuid, Entry, Version, Placement, PlacementWithEntry,
}
use riley_leaderboards.Db.{Db}
use riley_leaderboards.Repo.Versions.Placements.{
  Sql, join_entries, tier_query, config_of, run_tier_queries, listed_before, fetch_placements,
}
use riley_leaderboards.Repo.Export.{board_tiers, numbered}

module _ {A : Type 0} (p : A → Bool) where
  pub find-none : (xs : List A) (x : A) → find p xs ≡ none → In x xs → p x ≡ false
  find-none [] x h m = elim m [ ]
  find-none (y ∷ xs) x h m = elim (Bool-cases (p y)) [
    | inl e ↦ absurd (ground arith)
    | inr e ↦ elim m [ inl same ↦ rw same e | inr m ↦ find-none xs x (rw e at h) m ]
  ]

module _ {A : Type 0} (p : A → Bool) where
  any-of-All_false : (xs : List A) → All (λ x. p x ≡ false) xs → any p xs ≡ false
  any-of-All_false [] hs = refl
  any-of-All_false (x ∷ xs) (h, hs) = rw (h, any-of-All_false xs hs) refl

module _ {V : Type 0} where
  pub keep-join_entries :
      (id : Uuid) (entries : List (Entry V)) (ps : List (Placement V))
      → keep (λ p. num_eq p.version_id id) (join_entries entries ps)
        ≡ join_entries entries (keep (λ p. num_eq p.version_id id) ps)
  unfolding join_entries
  keep-join_entries id entries [] = refl
  keep-join_entries id entries (p ∷ ps) = let rest = keep-join_entries id entries ps in ground arith

  -- The join with the versions keeps the rows of a version of the board.
  pub keep-numbered :
      (versions : List (Version V)) (v : Version V)
      → In v versions
      → (ps : List (PlacementWithEntry V))
      → map (λ x. x.1) (keep (λ x. num_eq x.1.version_id v.id) (numbered versions v.board_id ps))
        ≡ keep (λ p. num_eq p.version_id v.id) ps
  unfolding numbered
  keep-numbered versions v m [] = refl
  keep-numbered versions v m (p ∷ ps) =
      let rest = keep-numbered versions v m ps in
      elim (Option-cases
        (find (λ w. num_eq w.id p.version_id && num_eq w.board_id v.board_id) versions)) [
          | inl e ↦
              let other : num_eq p.version_id v.id ≡ false =
                (let q = find-none _ versions v e m in ground arith) in
              rw (e, other) rest
          | inr e ↦ rw e.1 (ground (arith, rest))
        ]

  All-of-map :
      (P : PlacementWithEntry V → Type 0) (xs : List (ℕ × PlacementWithEntry V))
      → All P (map (λ x. x.1) xs)
      → All (λ x. P x.1) xs
  All-of-map P [] hs = tt
  All-of-map P (x ∷ xs) (h, hs) = (h, All-of-map P xs hs)

  -- The rows of a version among those of a list.
  abbrev pub rows_of : Uuid → List (PlacementWithEntry V) → List (PlacementWithEntry V)
  rows_of id rows = keep (λ p. num_eq p.version_id id) rows

  any-rows_cons :
      (q : PlacementWithEntry V → Bool) (id : Uuid) (p : PlacementWithEntry V)
      (ps : List (PlacementWithEntry V))
      → any q (rows_of id ps) ≡ true
      → any q (rows_of id (p ∷ ps)) ≡ true
  any-rows_cons q id p ps h = ground (arith, h)

  -- A row of the join that fails a test is a row of a version of the board.
  pub any-numbered :
      (q : PlacementWithEntry V → Bool) (versions : List (Version V)) (board_id : Uuid)
      (ps : List (PlacementWithEntry V))
      → any q (map (λ x. x.1) (numbered versions board_id ps)) ≡ true
      → (v : Version V) × In v versions × (v.board_id ≡ board_id) × (any q (rows_of v.id ps) ≡ true)
  unfolding numbered
  any-numbered q versions board_id [] h = cc
  any-numbered q versions board_id (p ∷ ps) h =
      elim (Option-cases
        (find (λ v. num_eq v.id p.version_id && num_eq v.board_id board_id) versions)) [
          | inl e ↦
              let (v, m, own, found) = any-numbered q versions board_id ps (rw e at h) in
              (v, m, own, any-rows_cons q v.id p ps found)
          | inr e ↦ elim (Bool-cases (q p)) [
            | inl f ↦
                let passed =
                  find-passes (λ v. num_eq v.id p.version_id && num_eq v.board_id board_id) versions
                    e.1 in
                (e.0, In-find _ versions e.1, ground arith, ground arith)
            | inr f ↦
                let (v, m, own, found) = any-numbered q versions board_id ps (rw (e.1, f) at h) in
                (v, m, own, any-rows_cons q v.id p ps found)
          ]
        ]

  -- Where no row of the join fails a test, none of a version of the board does.
  pub any-rows_of :
      (q : PlacementWithEntry V → Bool) (versions : List (Version V)) (v : Version V)
      (ps : List (PlacementWithEntry V))
      → In v versions
      → any q (map (λ x. x.1) (numbered versions v.board_id ps)) ≡ false
      → any q (rows_of v.id ps) ≡ false
  any-rows_of q versions v ps m h =
      let joined = numbered versions v.board_id ps in
      let fine = All-of-map (λ p. q p ≡ false) joined (All-of-any-false q _ h) in
      any-of-All_false q _ (
        subst (All (λ p. q p ≡ false)) (keep-numbered versions v m ps) (
          All-map (λ x. x.1) (λ p. q p ≡ false) _
            (All-keep (λ x. q x.1 ≡ false) (λ x. num_eq x.1.version_id v.id) joined fine)))

  pub config_of-eq :
      (db : Db V) (v : Version V)
      → Distinct (map (λ w. w.id) db.versions)
      → In v db.versions
      → config_of db v.id ≡ board_tiers db v.board_id
  config_of-eq db v d m = elim (Option-cases (find (λ w. num_eq w.id v.id) db.versions)) [
    | inl e ↦ absurd (let q = find-none _ db.versions v e m in ground arith)
    | inr e ↦
        let same : e.0 ≡ v =
          eq_of_key (λ w. w.id) db.versions e.0 v d (In-find _ db.versions e.1) m
            ((num_eq_iff e.0.id v.id).0 (find-passes _ db.versions e.1)) in
        rw (e.1, same) refl
  ]

  -- A row for which Postgres refuses the subquery.
  abbrev pub is_refused : Sql V → Option V → PlacementWithEntry V → Bool
  is_refused sql tiers p = not (is_some (tier_query sql tiers p.tier))

  module _ (sql : Sql V) (db : Db V) (v : Version V) (d : Distinct (map (λ w. w.id) db.versions))
      (m : In v db.versions) where
    abbrev tiers : Option V
    tiers = board_tiers db v.board_id

    abbrev all_rows : List (PlacementWithEntry V)
    all_rows = join_entries db.entries db.placements

    -- A version is read where its rows are not refused, and not read where one is.
    pub fetch_placements-eq : fetch_placements sql db v.id ≡ (
        if any (is_refused sql tiers) (rows_of v.id all_rows)
        then err (database invalid_value)
        else ok (order_by (listed_before sql tiers) (rows_of v.id all_rows)))
    unfolding fetch_placements run_tier_queries
    fetch_placements-eq =
        rw (config_of-eq db v d m, ← keep-join_entries v.id db.entries db.placements)
          (elim (Bool-cases (any (is_refused sql tiers) (rows_of v.id all_rows))) [
            | inl e ↦ rw e refl
            | inr e ↦ rw e refl
          ])
