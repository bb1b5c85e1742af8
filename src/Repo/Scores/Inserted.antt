-- ===== src/Repo/Scores/Inserted.antt =====
-- The rows that the INSERT loop of `snapshot` in repo/scores.rs adds, and what the ranking of a
-- version makes of them.
use mathlib.Core.Path.{subst}
use mathlib.Core.List.{append-nil, append_assoc}
use mathlib.Core.List.{Perm}
use riley_leaderboards.Prelude.{
  ℕ, ◌+◌, ◌≤◌, ◌<◌, String, ◌≡◌, refl, sym, ap, ◌∙◌, ◌≢◌, Bool, true, false, not, List, [], ◌∷◌,
  ◌++◌, map, arith, ◌==◌, num_eq_iff, keep, All, Distinct, All-imp, keep-append, keep-all,
  keep-none, All-map, Distinct-map_join,
}
use riley_leaderboards.Prelude.Rank.{IsSorted}
use riley_leaderboards.Models.{ok-injective, bind-eq-ok, ok, Uuid, Placement, AccumulatedScore}
use riley_leaderboards.Db.{Db}
use riley_leaderboards.Repo.Scores.{score_placement, insert_scores}
use riley_leaderboards.Repo.Versions.{Keys}
use riley_leaderboards.Repo.Versions.Placements.{insert_placement}
use riley_leaderboards.Repo.Versions.Placements.Inserted.{insert_placement-eq-ok}
use riley_leaderboards.Repo.Versions.Positions.{of_version, derive_scored_positions, ranks_before}
use riley_leaderboards.Repo.Versions.Positions.Ranking.{numbered, derive-keeps_others, derive-ranks}

module _ {V : Type 0} where
  -- The rows of the loop: one for each score, from the i-th key on.
  abbrev pub score_rows : Uuid → (ℕ → Uuid) → ℕ → List AccumulatedScore → List (Placement V)
  score_rows version_id ids i [] = []
  score_rows version_id ids i (s ∷ ss) =
      score_placement version_id (ids i) s ∷ score_rows version_id ids (i + 1) ss

  insert_scores-eq-ok :
      (version_id : Uuid) (ids : ℕ → Uuid) (i : ℕ) (ss : List AccumulatedScore)
      (table : List (Placement V)) {table' : List (Placement V)}
      → insert_scores version_id ids i ss table ≡ ok table'
      → table' ≡ table ++ score_rows version_id ids i ss
  unfolding insert_scores
  insert_scores-eq-ok version_id ids i [] table h = sym (ok-injective h) ∙ sym (append-nil table)
  insert_scores-eq-ok version_id ids i (s ∷ ss) table h =
      let row = score_placement version_id (ids i) s in
      let (table₁, added, h) = bind-eq-ok (insert_placement table row) _ h in
      insert_scores-eq-ok version_id ids (i + 1) ss table₁ h
      ∙ ap (λ l. l ++ score_rows version_id ids (i + 1) ss)
          (sym (insert_placement-eq-ok table row added))
      ∙ append_assoc table (row ∷ []) (score_rows version_id ids (i + 1) ss)

module _ (V : Type 0) where
  score_rows-version :
      (version_id : Uuid) (ids : ℕ → Uuid) (i : ℕ) (ss : List AccumulatedScore)
      → All (λ p. of_version version_id p ≡ true) (score_rows {V = V} version_id ids i ss)
  score_rows-version version_id ids i [] = tt
  score_rows-version version_id ids i (s ∷ ss) =
      ((num_eq_iff version_id version_id).1 refl, score_rows-version version_id ids (i + 1) ss)

  score_rows-ids :
      (version_id : Uuid) (ids : ℕ → Uuid) (i : ℕ) (ss : List AccumulatedScore)
      → All (λ q. (j : ℕ) × (i ≤ j) × (q.id ≡ ids j)) (score_rows {V = V} version_id ids i ss)
  score_rows-ids version_id ids i [] = tt
  score_rows-ids version_id ids i (s ∷ ss) = (
    (i, omega arith, refl),
    All-imp (λ x g. (g.0, omega (arith, g.1), g.2)) (score_rows {V = V} version_id ids (i + 1) ss)
        (score_rows-ids version_id ids (i + 1) ss),
  )

  score_rows-Distinct :
      (version_id : Uuid) (ids : ℕ → Uuid)
      → ((i j : ℕ) → i < j → ids i ≢ ids j)
      → (i : ℕ) (ss : List AccumulatedScore)
      → Distinct (map (λ q. q.id) (score_rows {V = V} version_id ids i ss))
  score_rows-Distinct version_id ids apart i [] = tt
  score_rows-Distinct version_id ids apart i (s ∷ ss) =
      let rest = score_rows {V = V} version_id ids (i + 1) ss in
      (
        All-map (λ (q : Placement V). q.id) (λ b. b ≢ ids i) rest
            (All-imp (λ x g k. apart i g.0 (omega (arith, g.1)) (sym k ∙ g.2)) rest
              (score_rows-ids version_id ids (i + 1) ss)),
        score_rows-Distinct version_id ids apart (i + 1) ss,
      )

module _ {V : Type 0} where
  -- The keys of placements are new, and no two are equal.
  pub record IsFresh (db : Db V) (keys : Keys) : Type 0 where
    pub version : All (λ p. of_version keys.version_id p ≡ false) db.placements
    pub placements : (i : ℕ) → All (λ p. p.id ≢ keys.placement_ids i) db.placements
    pub apart : (i j : ℕ) → i < j → keys.placement_ids i ≢ keys.placement_ids j
    pub distinct : Distinct (map (λ p. p.id) db.placements)

  module _ (db : Db V) (keys : Keys) (sort_direction : String) (ss : List AccumulatedScore)
      {table : List (Placement V)}
      (inserted : insert_scores keys.version_id keys.placement_ids 0 ss db.placements ≡ ok table)
      (fresh : IsFresh db keys) where
    rows : List (Placement V)
    rows = score_rows keys.version_id keys.placement_ids 0 ss

    table_eq : table ≡ db.placements ++ rows
    unfolding rows
    table_eq = insert_scores-eq-ok keys.version_id keys.placement_ids 0 ss db.placements inserted

    table-Distinct : Distinct (map (λ p. p.id) table)
    unfolding rows
    table-Distinct =
        subst (λ l. Distinct (map (λ p. p.id) l)) (sym table_eq)
          (Distinct-map_join (λ p. p.id) db.placements rows fresh.distinct
            (score_rows-Distinct V keys.version_id keys.placement_ids fresh.apart 0 ss)
            (All-imp (λ q g. All-imp (λ p n e. n (e ∙ g.2)) db.placements (fresh.placements g.0))
              rows (score_rows-ids V keys.version_id keys.placement_ids 0 ss)))

    -- The placements of the other versions.
    pub derived-keeps_placements :
        keep
          (λ p. not (of_version keys.version_id p))
          (derive_scored_positions keys.version_id sort_direction table)
        ≡ db.placements
    unfolding rows
    derived-keeps_placements =
        let others : Placement V → Bool = λ p. not (of_version keys.version_id p) in
        derive-keeps_others keys.version_id sort_direction table table-Distinct
        ∙ ap (keep others) table_eq
        ∙ keep-append others db.placements rows
        ∙ ap (λ l. l ++ keep others rows)
            (keep-all others db.placements (All-imp (λ p e. ap not e) db.placements fresh.version))
        ∙ ap (λ l. db.placements ++ l)
            (keep-none others rows (
              All-imp (λ p e. ap not e) rows
                (score_rows-version V keys.version_id keys.placement_ids 0 ss)))
        ∙ append-nil db.placements

    own_rows : keep (of_version keys.version_id) table ≡ rows
    unfolding rows
    own_rows =
        ap (keep (of_version keys.version_id)) table_eq
        ∙ keep-append (of_version keys.version_id) db.placements rows
        ∙ ap (λ l. l ++ keep (of_version keys.version_id) rows)
            (keep-none (of_version keys.version_id) db.placements fresh.version)
        ∙ keep-all (of_version keys.version_id) rows
            (score_rows-version V keys.version_id keys.placement_ids 0 ss)

  -- The placements of the version: the rows of the loop, numbered in an order by their scores.
  abbrev pub IsRanked : Keys → String → List AccumulatedScore → List (Placement V) → Type 0
  IsRanked keys sort_direction ss table =
      (order : List (Placement V)) × Perm order (score_rows keys.version_id keys.placement_ids 0 ss)
      × IsSorted (ranks_before (sort_direction == "asc")) order
      × Perm (keep (of_version keys.version_id) table) (numbered 1 order)

  pub derived-IsRanked :
      (db : Db V) (keys : Keys) (sort_direction : String) (ss : List AccumulatedScore)
      {table : List (Placement V)}
      (inserted : insert_scores keys.version_id keys.placement_ids 0 ss db.placements ≡ ok table)
      (fresh : IsFresh db keys)
      → IsRanked keys sort_direction ss
          (derive_scored_positions keys.version_id sort_direction table)
  unfolding rows
  derived-IsRanked db keys sort_direction ss {table} inserted fresh =
      let (order, perm, sorted, ranked) =
        derive-ranks keys.version_id sort_direction table
          (table-Distinct db keys sort_direction ss inserted fresh) in
      (
        order,
        subst (λ l. Perm order l) (own_rows db keys sort_direction ss inserted fresh) perm,
        sorted,
        ranked,
      )
