-- ===== src/Repo/Versions/Positions/Ranking.antt =====
-- What `derive_scored_positions` of repo/versions.rs makes of the placements.
use mathlib.Core.Path.{subst}
use mathlib.Core.List.{Perm}
use mathlib.Core.List.Perm
use riley_leaderboards.Prelude.{
  ℕ, ◌+◌, String, ◌≡◌, refl, sym, ap, ◌∙◌, ◌≢◌, inl, inr, Bool, true, not, none, some, List, [],
  ◌∷◌, map, arith, ◌==◌, num_eq, num_eq_iff, Bool-cases, Option-cases, keep, In, All, pos, Distinct,
  All-In, All-of-In, In-keep, All-keep_passes, All-map, Distinct-map-keep, eq_of_key,
}
use riley_leaderboards.Prelude.Rank.{
  order_by, order_by-perm, IsSorted, order_by-IsSorted, Distinct-map-order_by, All-map_order_by,
}
use riley_leaderboards.Models.{Uuid, Placement}
use riley_leaderboards.Repo.Versions.Positions.{
  ranks_before, row_numbers, rank_of, assign, of_version, ranking, derive_scored_positions,
}
use riley_leaderboards.Repo.Versions.Positions.Order.{ranks_before_asymm, ranks_before_trans}

module _ {V : Type 0} where
  -- The rows with the positions n, n + 1, ..
  abbrev pub numbered : ℕ → List (Placement V) → List (Placement V)
  numbered n [] = []
  numbered n (p ∷ ps) = record p { position = some (pos n) } ∷ numbered (n + 1) ps

  rank_of_absent :
      (id : Uuid) (n : ℕ) (ps : List (Placement V))
      → All (λ i. i ≢ id) (map (λ p. p.id) ps)
      → rank_of id (row_numbers n ps) ≡ none
  unfolding rank_of row_numbers
  rank_of_absent id n [] h = refl
  rank_of_absent id n (p ∷ ps) (h, hs) =
      ground (arith, num_eq_iff p.id id, rank_of_absent id (n + 1) ps hs)

  -- A row that is not numbered stays as it is.
  assign_absent :
      (n : ℕ) (ps : List (Placement V)) (p : Placement V)
      → All (λ i. i ≢ p.id) (map (λ q. q.id) ps)
      → assign (row_numbers n ps) p ≡ p
  unfolding assign
  assign_absent n ps p h = rw (rank_of_absent p.id n ps h)

  -- A lookup passes over a row with another key.
  assign_skip :
      (n : ℕ) (q : Placement V) (ranked : List (Placement V)) (ps : List (Placement V))
      → All (λ i. i ≢ q.id) (map (λ p. p.id) ps)
      → map (assign ((q.id, n) ∷ row_numbers (n + 1) ranked)) ps
        ≡ map (assign (row_numbers (n + 1) ranked)) ps
  unfolding assign rank_of
  assign_skip n q ranked [] h = refl
  assign_skip n q ranked (p ∷ ps) (h, hs) =
      ground (arith, num_eq_iff q.id p.id, assign_skip n q ranked ps hs)

  -- The numbered rows get their numbers.
  map-assign :
      (n : ℕ) (ps : List (Placement V))
      → Distinct (map (λ p. p.id) ps)
      → map (assign (row_numbers n ps)) ps ≡ numbered n ps
  unfolding assign rank_of row_numbers
  map-assign n [] d = refl
  map-assign n (p ∷ ps) (k, d) = rw ((num_eq_iff p.id p.id).1 refl) (
      ap (◌∷◌ (record p { position = some (pos n) }))
        (assign_skip n p ps ps k ∙ map-assign (n + 1) ps d))

  assign-keeps_version :
      (ranked : List (Uuid × ℕ)) (p : Placement V) → (assign ranked p).version_id ≡ p.version_id
  unfolding assign
  assign-keeps_version ranked p = elim (Option-cases (rank_of p.id ranked)) [
    | inl e ↦ rw e
    | inr (n, e) ↦ rw e
  ]

  keep-map-assign :
      (test : Uuid → Bool) (ranked : List (Uuid × ℕ)) (ps : List (Placement V))
      → keep (λ p. test p.version_id) (map (assign ranked) ps)
        ≡ map (assign ranked) (keep (λ p. test p.version_id) ps)
  keep-map-assign test ranked [] = refl
  keep-map-assign test ranked (p ∷ ps) = elim (Bool-cases (test p.version_id)) [
    | inl e ↦
        rw (ap test (assign-keeps_version ranked p) ∙ e, e)
          (ap (◌∷◌ (assign ranked p)) (keep-map-assign test ranked ps))
    | inr e ↦ rw (ap test (assign-keeps_version ranked p) ∙ e, e) (keep-map-assign test ranked ps)
  ]

  map_absent :
      (ranked : List (Placement V)) (ps : List (Placement V))
      → All (λ p. All (λ i. i ≢ p.id) (map (λ q. q.id) ranked)) ps
      → map (assign (row_numbers 1 ranked)) ps ≡ ps
  map_absent ranked [] h = refl
  map_absent ranked (p ∷ ps) (h, hs) = rw (assign_absent 1 ranked p h, map_absent ranked ps hs)

  module _ (version_id : Uuid) (sort_direction : String) (ps : List (Placement V))
      (ids : Distinct (map (λ p. p.id) ps)) where
    absent :
        (p : Placement V)
        → In p ps
        → not (of_version version_id p) ≡ true
        → All (λ i. i ≢ p.id) (map (λ q. q.id) (ranking version_id sort_direction ps))
    unfolding ranking
    absent p m other =
        All-map_order_by (ranks_before (sort_direction == "asc")) (λ q. q.id) (λ i. i ≢ p.id)
          (keep (of_version version_id) ps)
          (All-map (λ q. q.id) (λ i. i ≢ p.id) (keep (of_version version_id) ps)
            (All-of-In (keep (of_version version_id) ps) (λ q n same. ground (
              arith,
              ap (of_version version_id) (
                  eq_of_key (λ r. r.id) ps q p ids (In-keep (of_version version_id) ps q n) m same),
              All-In (λ r. of_version version_id r ≡ true) (keep (of_version version_id) ps) q
                  (All-keep_passes (of_version version_id) ps) n,
            ))))

    -- Where no two placements share a key, deriving the positions of a version leaves the
    -- placements of the other versions as they are.
    pub derive-keeps_others :
        keep
          (λ p. not (of_version version_id p))
          (derive_scored_positions version_id sort_direction ps)
        ≡ keep (λ p. not (of_version version_id p)) ps
    unfolding derive_scored_positions
    derive-keeps_others =
        keep-map-assign (λ v. not (num_eq v version_id)) _ ps
        ∙ map_absent (ranking version_id sort_direction ps)
            (keep (λ p. not (of_version version_id p)) ps)
            (All-of-In (keep (λ p. not (of_version version_id p)) ps) (λ p n.
              absent p (In-keep (λ q. not (of_version version_id q)) ps p n) (
                All-In (λ q. not (of_version version_id q) ≡ true)
                  (keep (λ q. not (of_version version_id q)) ps) p
                  (All-keep_passes (λ q. not (of_version version_id q)) ps) n)))

    -- Where no two placements share a key: there is an order of the placements of the
    -- version in which no score stands before an earlier one, ties going by the entry's key
    -- and missing scores last, and after the UPDATE the placements of the version are those
    -- with the positions 1, 2, 3, .. in that order.
    pub derive-ranks :
        (order : List (Placement V)) × Perm order (keep (of_version version_id) ps)
        × IsSorted (ranks_before (sort_direction == "asc")) order
        × Perm
            (keep (of_version version_id) (derive_scored_positions version_id sort_direction ps))
            (numbered 1 order)
    unfolding derive_scored_positions ranking
    derive-ranks =
        let rows = keep (of_version version_id) ps in
        let before : Placement V → Placement V → Bool = ranks_before (sort_direction == "asc") in
        let order = order_by before rows in
        let ranked = row_numbers 1 order in
        (
          order,
          order_by-perm before rows,
          order_by-IsSorted before (ranks_before_asymm _) (ranks_before_trans _) rows,
          subst (λ l. Perm l (numbered 1 order))
              (sym (keep-map-assign (λ v. num_eq v version_id) ranked ps))
              (subst (λ l. Perm (map (assign ranked) rows) l)
                (map-assign 1 order (
                  Distinct-map-order_by before (λ p. p.id) rows
                    (Distinct-map-keep (λ p. p.id) (of_version version_id) ps ids)))
                (Perm.map (assign ranked) (Perm.symm (order_by-perm before rows)))),
        )
