-- ===== src/Repo/Versions/Diff.antt =====
-- `diff` of crates/riley-leaderboards-core/src/repo/versions.rs.
pub mod Laws
pub mod Same
use riley_leaderboards.Prelude.{
  String, Bool, true, false, not, ◌||◌, Option, none, some, List, [], ◌∷◌, map, ◌==◌, if◌then◌else◌,
  is_some, ℤ, eq_ℤ,
}
use riley_leaderboards.Models.{
  Result, ◌>>=◌, ◌>>◌, ok, Uuid, PlacementWithEntry, DiffEntry, DiffMovedEntry, VersionDiff,
}
use riley_leaderboards.Db.{Db}
use riley_leaderboards.Repo.{scores_equal}
use riley_leaderboards.Repo.Versions.{get_by_number}
use riley_leaderboards.Repo.Versions.Placements.{Sql}

-- `!=` on `Option<i32>` and `Option<String>`
abbrev pub position_ne : Option ℤ → Option ℤ → Bool
position_ne none none = false
position_ne (some a) (some b) = not (eq_ℤ a b)
position_ne _ _ = true

abbrev pub tier_ne : Option String → Option String → Bool
tier_ne none none = false
tier_ne (some a) (some b) = not (a == b)
tier_ne _ _ = true

module _ {V : Type 0} where
  -- The map keyed by slug: of two placements with one slug the later one stays.
  unfoldable pub by_slug : String → List (PlacementWithEntry V) → Option (PlacementWithEntry V)
  by_slug slug [] = none
  by_slug slug (p ∷ ps) = elim (by_slug slug ps) [
    | some q ↦ some q
    | none ↦ if p.entry_slug == slug then some p else none
  ]

  abbrev pub diff_entry : PlacementWithEntry V → DiffEntry
  diff_entry p = record {
    entry_slug = p.entry_slug;
    entry_name = p.entry_name;
    position = p.position;
    score = p.score;
    tier = p.tier;
  }

  abbrev pub moved_entry : PlacementWithEntry V → PlacementWithEntry V → DiffMovedEntry
  moved_entry from p = record {
    entry_slug = p.entry_slug;
    entry_name = p.entry_name;
    from_position = from.position;
    to_position = p.position;
    from_score = from.score;
    to_score = p.score;
    from_tier = from.tier;
    to_tier = p.tier;
  }

  unfoldable pub has_moved : PlacementWithEntry V → PlacementWithEntry V → Bool
  has_moved from p =
      position_ne from.position p.position
      || not (scores_equal from.score p.score)
      || tier_ne from.tier p.tier

  -- One round of the loop over the placements of `to`, in front of what the later rounds add.
  abbrev pub classify :
      Option (PlacementWithEntry V) → PlacementWithEntry V → VersionDiff → VersionDiff
  classify none p d = record d { added = diff_entry p ∷ d.added }
  classify (some from) p d =
      if has_moved from p
      then record d { moved = moved_entry from p ∷ d.moved }
      else record d { unchanged = diff_entry p ∷ d.unchanged }

  unfoldable pub classify_all :
      List (PlacementWithEntry V) → List (PlacementWithEntry V) → VersionDiff → VersionDiff
  classify_all from [] d = d
  classify_all from (p ∷ ps) d = classify (by_slug p.entry_slug from) p (classify_all from ps d)

  unfoldable pub removed_from :
      List (PlacementWithEntry V) → List (PlacementWithEntry V) → List DiffEntry
  removed_from to [] = []
  removed_from to (p ∷ ps) =
      if is_some (by_slug p.entry_slug to)
      then removed_from to ps
      else diff_entry p ∷ removed_from to ps

  unfoldable pub diff_placements :
      ℤ → ℤ → List (PlacementWithEntry V) → List (PlacementWithEntry V) → VersionDiff
  diff_placements from_number to_number from to = classify_all from to (record {
    from_version = from_number;
    to_version = to_number;
    added = [];
    removed = removed_from to from;
    moved = [];
    unchanged = [];
  })

  unfoldable pub diff : Sql V → Db V → Uuid → ℤ → ℤ → Result VersionDiff
  diff sql db board_id from_number to_number = do
    from ← get_by_number sql db board_id from_number
    to ← get_by_number sql db board_id to_number
    ok (diff_placements from_number to_number from.placements to.placements)
