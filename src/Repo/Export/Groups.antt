-- ===== src/Repo/Export/Groups.antt =====
-- The map from versions to placements in crates/riley-leaderboards-core/src/repo/export.rs.
use riley_leaderboards.Prelude.{
  ℕ, ◌≡◌, refl, sym, ap, ◌∙◌, ◌≢◌, inl, inr, false, List, [], ◌∷◌, ◌++◌, map, arith, num_eq,
  num_eq_iff, Bool-cases, keep, All, Distinct,
}
use mathlib.Core.List.{append-nil, append_assoc}
use riley_leaderboards.Models.{Uuid, Version, PlacementWithEntry}
use riley_leaderboards.Repo.Export.{
  PlacementExport, push, removed, without, placement_export, group_placements, version_export,
  version_exports,
}

num_ne : (a b : ℕ) → num_eq a b ≡ false → a ≢ b
num_ne a b h = ground arith

module _ {A : Type 0} where
  removed-push :
      (id : Uuid) (a : A) (rows : List (Uuid × List A))
      → removed id (push id a rows) ≡ removed id rows ++ a ∷ []
  unfolding push removed
  removed-push id a [] = ground arith
  removed-push id a ((k, held) ∷ rows) = elim (Bool-cases (num_eq k id)) [
    | inl e ↦ rw (e, e) refl
    | inr e ↦ rw (e, e) (removed-push id a rows)
  ]

  removed-push_other :
      (id other : Uuid) (a : A) (rows : List (Uuid × List A))
      → other ≢ id
      → removed id (push other a rows) ≡ removed id rows
  unfolding push removed
  removed-push_other id other a [] h = ground arith
  removed-push_other id other a ((k, held) ∷ rows) h =
      let rest = removed-push_other id other a rows h in ground arith

  removed-without :
      (id other : Uuid) (rows : List (Uuid × List A))
      → other ≢ id
      → removed id (without other rows) ≡ removed id rows
  unfolding removed
  removed-without id other [] h = refl
  removed-without id other ((k, held) ∷ rows) h =
      let rest = removed-without id other rows h in ground arith

module _ {V : Type 0} where
  unmoved :
      (groups : List (Uuid × List (PlacementExport V))) (id : Uuid) (vs : List (Version V))
      → All (λ i. i ≢ id) (map (λ v. v.id) vs)
      → map (λ v. version_export v (removed v.id (without id groups))) vs
        ≡ map (λ v. version_export v (removed v.id groups)) vs
  unmoved groups id [] h = refl
  unmoved groups id (v ∷ vs) (k, h) =
      let same = removed-without v.id id groups (λ e. k (sym e)) in
      rw (same, unmoved groups id vs h) refl

  removed-group_placements :
      (id : Uuid) (ps : List (PlacementWithEntry V))
      (groups : List (Uuid × List (PlacementExport V)))
      → removed id (group_placements ps groups)
        ≡ removed id groups ++ map placement_export (keep (λ p. num_eq p.version_id id) ps)
  unfolding group_placements
  removed-group_placements id [] groups = sym (append-nil _)
  removed-group_placements id (p ∷ ps) groups =
      let a = placement_export p in
      let later = map placement_export (keep (λ q. num_eq q.version_id id) ps) in
      let rest = removed-group_placements id ps (push p.version_id a groups) in
      elim (Bool-cases (num_eq p.version_id id)) [
        | inl e ↦
            let same : p.version_id ≡ id = (num_eq_iff p.version_id id).0 e in
            rw e (
              rest
              ∙ ap (λ held. held ++ later)
                  (ap (λ i. removed id (push i a groups)) same ∙ removed-push id a groups)
              ∙ append_assoc (removed id groups) (a ∷ []) later)
        | inr e ↦ rw e (
            rest
            ∙ ap (λ held. held ++ later)
                (removed-push_other id p.version_id a groups (num_ne p.version_id id e)))
      ]

  -- What the versions take out of the map is what was put there for them.
  version_exports-eq :
      (groups : List (Uuid × List (PlacementExport V))) (vs : List (Version V))
      → Distinct (map (λ v. v.id) vs)
      → version_exports groups vs ≡ map (λ v. version_export v (removed v.id groups)) vs
  unfolding version_exports
  version_exports-eq groups [] d = refl
  version_exports-eq groups (v ∷ vs) (k, d) =
      ap (λ rest. version_export v (removed v.id groups) ∷ rest)
        (version_exports-eq (without v.id groups) vs d ∙ unmoved groups v.id vs k)

  pub version_exports-group_placements :
      (ps : List (PlacementWithEntry V)) (vs : List (Version V))
      → Distinct (map (λ v. v.id) vs)
      → version_exports (group_placements ps []) vs
        ≡ map
            (λ v. version_export v (map placement_export (keep (λ p. num_eq p.version_id v.id) ps)))
            vs
  unfolding removed
  version_exports-group_placements ps vs d =
      version_exports-eq (group_placements ps []) vs d
      ∙ ap (λ (f : Version V → List (PlacementExport V)). map (λ v. version_export v (f v)) vs)
          (λ i v. removed-group_placements v.id ps [] i)
