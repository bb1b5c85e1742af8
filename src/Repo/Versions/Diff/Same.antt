-- ===== src/Repo/Versions/Diff/Same.antt =====
-- When a difference of repo/versions.rs shows a change.
use mathlib.Core.List.{append-nil}
use mathlib.Core.Path.{subst}
use riley_leaderboards.Prelude.{
  String, ◌≡◌, refl, sym, ◌∙◌, ◌≢◌, ◌↔◌, inl, inr, true, false, Option, none, some, List, [], ◌∷◌,
  ◌++◌, map, arith, eq_iff, eq_refl, In, All, ℤ, eq_ℤ_iff, F64, Distinct, All-of-In,
}
use riley_leaderboards.Models.{PlacementWithEntry, VersionDiff}
use riley_leaderboards.Repo.{scores_equal}
use riley_leaderboards.Repo.Versions.Diff.{
  position_ne, tier_ne, by_slug, diff_entry, has_moved, classify_all, removed_from, diff_placements,
}

position_ne_iff : (a b : Option ℤ) → (position_ne a b ≡ false) ↔ (a ≡ b)
position_ne_iff none none = ground arith
position_ne_iff none (some b) = ground arith
position_ne_iff (some a) none = ground arith
position_ne_iff (some a) (some b) = ground (arith, eq_ℤ_iff a b)

tier_ne_iff : (a b : Option String) → (tier_ne a b ≡ false) ↔ (a ≡ b)
tier_ne_iff none none = ground arith
tier_ne_iff none (some b) = ground arith
tier_ne_iff (some a) none = ground arith
tier_ne_iff (some a) (some b) = ground (arith, eq_iff a b)

scores_equal_iff : (a b : Option F64) → (scores_equal a b ≡ true) ↔ (a ≡ b)
unfolding scores_equal
scores_equal_iff none none = ground arith
scores_equal_iff none (some b) = ground arith
scores_equal_iff (some a) none = ground arith
scores_equal_iff (some a) (some b) = ground arith

module _ {V : Type 0} where
  -- An entry counts as unmoved exactly when its position, its tier and the bits of its score agree.
  pub has_moved_iff :
      (from p : PlacementWithEntry V)
      → (has_moved from p ≡ false)
        ↔ ((from.position ≡ p.position) × (from.score ≡ p.score) × (from.tier ≡ p.tier))
  unfolding has_moved
  has_moved_iff from p = ground (
    arith,
    position_ne_iff from.position p.position,
    scores_equal_iff from.score p.score,
    tier_ne_iff from.tier p.tier,
  )

  by_slug_absent :
      (slug : String) (ps : List (PlacementWithEntry V))
      → All (λ s. s ≢ slug) (map (λ p. p.entry_slug) ps)
      → by_slug slug ps ≡ none
  unfolding by_slug
  by_slug_absent slug [] h = refl
  by_slug_absent slug (p ∷ ps) (h, hs) =
      ground (arith, eq_iff p.entry_slug slug, by_slug_absent slug ps hs)

  -- Where no slug comes twice, the map finds each placement under its slug.
  pub by_slug_self :
      (ps : List (PlacementWithEntry V)) (p : PlacementWithEntry V)
      → Distinct (map (λ q. q.entry_slug) ps)
      → In p ps
      → by_slug p.entry_slug ps ≡ some p
  unfolding by_slug
  by_slug_self [] p d m = elim m [ ]
  by_slug_self (q ∷ ps) p (k, d) (inl e) =
      subst (λ r. by_slug r.entry_slug (q ∷ ps) ≡ some r) (sym e)
        (rw (by_slug_absent q.entry_slug ps k, eq_refl q.entry_slug))
  by_slug_self (q ∷ ps) p (k, d) (inr m) = rw (by_slug_self ps p d m)

  unmoved_all :
      (from ps : List (PlacementWithEntry V)) (d : VersionDiff)
      → All (λ p. by_slug p.entry_slug from ≡ some p) ps
      → classify_all from ps d ≡ record d { unchanged = map diff_entry ps ++ d.unchanged }
  unfolding classify_all
  unmoved_all from [] d h = refl
  unmoved_all from (p ∷ ps) d (h, hs) =
      rw (h, (has_moved_iff p p).1 (refl, refl, refl), unmoved_all from ps d hs)

  kept_all :
      (to ps : List (PlacementWithEntry V))
      → All (λ p. by_slug p.entry_slug to ≡ some p) ps
      → removed_from to ps ≡ []
  unfolding removed_from
  kept_all to [] h = refl
  kept_all to (p ∷ ps) (h, hs) = rw h (kept_all to ps hs)

  -- A version whose placements have distinct slugs differs from itself in nothing.
  pub diff_placements_self :
      (i j : ℤ) (ps : List (PlacementWithEntry V))
      → Distinct (map (λ p. p.entry_slug) ps)
      → diff_placements i j ps ps ≡ record {
        from_version = i;
        to_version = j;
        added = [];
        removed = [];
        moved = [];
        unchanged = map diff_entry ps;
      }
  unfolding diff_placements
  diff_placements_self i j ps d =
      let found = All-of-In ps (λ p m. by_slug_self ps p d m) in
      rw (kept_all ps ps found) (unmoved_all ps ps _ found ∙ rw (append-nil (map diff_entry ps)))
