-- ===== src/Repo/Versions/Diff/Laws.antt =====
-- What a difference of repo/versions.rs lists.
use mathlib.Core.Path.{subst}
use mathlib.Core.List.{Perm, perm_middle, append-nil}
use mathlib.Core.List.Perm
use riley_leaderboards.Prelude.{
  String, ◌≡◌, refl, sym, ap, ◌∙◌, inl, inr, not, Option, none, some, List, [], ◌∷◌, ◌++◌, map,
  arith, ◌==◌, Bool-cases, is_some, any, keep, ℤ,
}
use riley_leaderboards.Models.{PlacementWithEntry, DiffEntry, DiffMovedEntry, VersionDiff}
use riley_leaderboards.Repo.Versions.Diff.{
  by_slug, diff_entry, has_moved, classify, classify_all, removed_from, diff_placements,
}

-- What a moved entry is after the move, and what it was before.
abbrev pub after : DiffMovedEntry → DiffEntry
after m = record {
  entry_slug = m.entry_slug;
  entry_name = m.entry_name;
  position = m.to_position;
  score = m.to_score;
  tier = m.to_tier;
}

-- The added, the moved and the unchanged entries.
abbrev pub shown : VersionDiff → List DiffEntry
shown d = d.added ++ (map after d.moved ++ d.unchanged)

module _ {V : Type 0} where
  classify-perm :
      (o : Option (PlacementWithEntry V)) (p : PlacementWithEntry V) (d : VersionDiff)
      → Perm (shown (classify o p d)) (diff_entry p ∷ shown d)
  classify-perm none p d = Perm.refl _
  classify-perm (some from) p d = elim (Bool-cases (has_moved from p)) [
    | inl e ↦ rw e (perm_middle d.added (map after d.moved ++ d.unchanged))
    | inr e ↦ rw e (
        Perm.trans (Perm.append_left d.added (perm_middle (map after d.moved) d.unchanged))
          (perm_middle d.added (map after d.moved ++ d.unchanged)))
  ]

  classify_all-perm :
      (from to : List (PlacementWithEntry V)) (d : VersionDiff)
      → Perm (shown (classify_all from to d)) (map diff_entry to ++ shown d)
  unfolding classify_all
  classify_all-perm from [] d = Perm.refl (shown d)
  classify_all-perm from (p ∷ to) d =
      Perm.trans (classify-perm (by_slug p.entry_slug from) p (classify_all from to d))
        (Perm.cons (diff_entry p) (classify_all-perm from to d))

  added-classify_all :
      (from to : List (PlacementWithEntry V)) (d : VersionDiff)
      → (classify_all from to d).added ≡ removed_from from to ++ d.added
  unfolding classify_all removed_from
  added-classify_all from [] d = refl
  added-classify_all from (p ∷ to) d = ground (arith, added-classify_all from to d)

  removed-classify_all :
      (from to : List (PlacementWithEntry V)) (d : VersionDiff)
      → (classify_all from to d).removed ≡ d.removed
  unfolding classify_all
  removed-classify_all from [] d = refl
  removed-classify_all from (p ∷ to) d = ground (arith, removed-classify_all from to d)

  -- The added, moved and unchanged entries together are the placements of the newer version, each
  -- as often as it is there.
  pub diff_placements-perm :
      (from_number to_number : ℤ) (from to : List (PlacementWithEntry V))
      → Perm (shown (diff_placements from_number to_number from to)) (map diff_entry to)
  unfolding diff_placements
  diff_placements-perm i j from to =
      subst (λ l. Perm (shown (diff_placements i j from to)) l) (append-nil (map diff_entry to))
        (classify_all-perm from to _)

  -- Read the other way round, what was added is removed and what was removed is added.
  pub diff_placements-dual :
      (i j : ℤ) (from to : List (PlacementWithEntry V))
      → ((diff_placements i j from to).added ≡ (diff_placements j i to from).removed)
        × ((diff_placements i j from to).removed ≡ (diff_placements j i to from).added)
  unfolding diff_placements
  diff_placements-dual i j from to = (
    added-classify_all from to _
        ∙ append-nil (removed_from from to)
        ∙ sym (removed-classify_all to from _),
    removed-classify_all from to _
        ∙ sym (added-classify_all to from _ ∙ append-nil (removed_from to from)),
  )

  is_some-by_slug :
      (slug : String) (ps : List (PlacementWithEntry V))
      → is_some (by_slug slug ps) ≡ any (λ q. q.entry_slug == slug) ps
  unfolding by_slug
  is_some-by_slug slug [] = refl
  is_some-by_slug slug (p ∷ ps) = ground (arith, is_some-by_slug slug ps)

  removed_from-keep :
      (to from : List (PlacementWithEntry V))
      → removed_from to from
        ≡ map diff_entry (keep (λ p. not (any (λ q. q.entry_slug == p.entry_slug) to)) from)
  unfolding removed_from
  removed_from-keep to [] = refl
  removed_from-keep to (p ∷ from) = elim (Bool-cases (any (λ q. q.entry_slug == p.entry_slug) to)) [
    | inl e ↦ rw (is_some-by_slug p.entry_slug to ∙ e, e) (removed_from-keep to from)
    | inr e ↦
        rw (is_some-by_slug p.entry_slug to ∙ e, e)
          (ap (◌∷◌ (diff_entry p)) (removed_from-keep to from))
  ]

  -- Removed are the placements whose slug the newer version lacks, added those whose slug the
  -- older version lacks, in the order of their versions.
  pub diff_placements-slugs :
      (i j : ℤ) (from to : List (PlacementWithEntry V))
      → ((diff_placements i j from to).removed
          ≡ map diff_entry (keep (λ p. not (any (λ q. q.entry_slug == p.entry_slug) to)) from))
        × ((diff_placements i j from to).added
            ≡ map diff_entry (keep (λ p. not (any (λ q. q.entry_slug == p.entry_slug) from)) to))
  unfolding diff_placements
  diff_placements-slugs i j from to = (
    removed-classify_all from to _ ∙ removed_from-keep to from,
    added-classify_all from to _ ∙ append-nil (removed_from from to) ∙ removed_from-keep from to,
  )
