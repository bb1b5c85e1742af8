-- ===== src/Tests/Differences.antt =====
-- Differences of concrete versions.
use mathlib.Core.List.{Perm}
use riley_leaderboards.Prelude.{
  ℕ, String, ◌≡◌, refl, ◌↔◌, false, not, Option, none, some, List, [], ◌∷◌, map, arith, ◌==◌,
  eq_iff, any, keep, F64, pos, Distinct,
}
use riley_leaderboards.Models.{PlacementWithEntry}
use riley_leaderboards.Repo.{scores_equal}
use riley_leaderboards.Repo.Versions.Diff.{
  by_slug, diff_entry, has_moved, classify_all, removed_from, diff_placements,
}
use riley_leaderboards.Repo.Versions.Diff.Laws.{
  shown, diff_placements-perm, diff_placements-dual, diff_placements-slugs,
}
use riley_leaderboards.Repo.Versions.Diff.Same.{has_moved_iff, diff_placements_self}
use riley_leaderboards.Tests.Base.{Doc, one, two}

abbrev listed : String → ℕ → F64 → PlacementWithEntry Doc
listed slug position score = record {
  id = position;
  version_id = 20;
  entry_id = position;
  position = some (pos position);
  score = some score;
  tier = none;
  metadata = none;
  entry_slug = slug;
  entry_name = slug;
}

abbrev older : List (PlacementWithEntry Doc)
older = listed "ann" 1 two ∷ listed "bob" 2 one ∷ []

abbrev newer : List (PlacementWithEntry Doc)
newer = listed "bob" 1 two ∷ listed "cid" 2 one ∷ []

older-Distinct : Distinct (map (λ p. p.entry_slug) older)
older-Distinct = ((λ e. ground (arith, (eq_iff "bob" "ann").1 e), tt), (tt, tt))

difference :
    ((diff_placements (pos 1) (pos 2) older newer).added ≡ diff_entry (listed "cid" 2 one) ∷ [])
    × ((diff_placements (pos 1) (pos 2) older newer).removed ≡ diff_entry (listed "ann" 1 two) ∷ [])
    × ((diff_placements (pos 1) (pos 2) older newer).unchanged ≡ [])
unfolding diff_placements classify_all removed_from by_slug has_moved scores_equal
difference = (refl, refl, refl)

diff_placements-perm_example :
    Perm (shown (diff_placements (pos 1) (pos 2) older newer)) (map diff_entry newer)
diff_placements-perm_example = diff_placements-perm (pos 1) (pos 2) older newer

diff_placements-dual_example :
    ((diff_placements (pos 1) (pos 2) older newer).added
      ≡ (diff_placements (pos 2) (pos 1) newer older).removed)
    × ((diff_placements (pos 1) (pos 2) older newer).removed
        ≡ (diff_placements (pos 2) (pos 1) newer older).added)
diff_placements-dual_example = diff_placements-dual (pos 1) (pos 2) older newer

diff_placements-slugs_example :
    ((diff_placements (pos 1) (pos 2) older newer).removed
      ≡ map diff_entry (keep (λ p. not (any (λ q. q.entry_slug == p.entry_slug) newer)) older))
    × ((diff_placements (pos 1) (pos 2) older newer).added
        ≡ map diff_entry (keep (λ p. not (any (λ q. q.entry_slug == p.entry_slug) older)) newer))
diff_placements-slugs_example = diff_placements-slugs (pos 1) (pos 2) older newer

has_moved_iff_example : (has_moved (listed "bob" 2 one) (listed "bob" 1 two) ≡ false) ↔ (
    (some (pos 2) ≡ some (pos 1))
    × (some one ≡ some two)
    × (Option.none ≡ (listed "bob" 1 two).tier))
has_moved_iff_example = has_moved_iff (listed "bob" 2 one) (listed "bob" 1 two)

diff_placements_self_example : diff_placements (pos 1) (pos 2) older older ≡ record {
  from_version = pos 1;
  to_version = pos 2;
  added = [];
  removed = [];
  moved = [];
  unchanged = map diff_entry older;
}
diff_placements_self_example = diff_placements_self (pos 1) (pos 2) older older-Distinct
