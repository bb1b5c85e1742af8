-- ===== src/Tests/Export.antt =====
-- The export of a board with two versions.
use riley_leaderboards.Prelude.{
  ℕ, String, ◌≡◌, refl, ◌⊎◌, none, some, List, [], ◌∷◌, map, arith, In, pos,
}
use riley_leaderboards.Prelude.Rank.{place, order_by}
use riley_leaderboards.Models.{Result, invalid_value, database, ok, err, Uuid, Version, Placement}
use riley_leaderboards.Db.{Db}
use riley_leaderboards.Repo.Boards
use riley_leaderboards.Repo.Boards.{get_by_slug}
use riley_leaderboards.Repo.Versions.{list}
use riley_leaderboards.Repo.Versions.Placements.{
  join_entries, listed_before, run_tier_queries, fetch_placements,
}
use riley_leaderboards.Repo.Export.{
  BoardExport, push, removed, numbered, exported_before, all_placements, group_placements,
  version_exports, export_board,
}
use riley_leaderboards.Repo.Export.Complete.{HoldsAll, export_board_complete}
use riley_leaderboards.Tests.Base.{Doc, num, nil, field, sql, chess, club}

export_code : Unit {0}
unfolding push removed numbered exported_before all_placements group_placements version_exports
    export_board place order_by list run_tier_queries fetch_placements join_entries listed_before
    get_by_slug
export_code = tt

abbrev issue : Uuid → ℕ → Version Doc
issue id number = record {
  id = id;
  board_id = 1;
  version_number = number;
  note = none;
  metadata = none;
  created_at = id;
}

abbrev rank : Uuid → Uuid → Uuid → ℕ → Placement Doc
rank id version entry position = record {
  id = id;
  version_id = version;
  entry_id = entry;
  position = some (pos position);
  score = none;
  tier = none;
  metadata = none;
}

-- In the first version bob is ahead of ann, in the second ann stands alone.
abbrev season : Db Doc
season = record club {
  versions = issue 20 1 ∷ issue 30 2 ∷ [];
  placements = rank 21 20 11 2 ∷ rank 31 30 11 1 ∷ rank 22 20 12 1 ∷ [];
}

exported : Result (BoardExport Doc) → List (ℕ × List String)
exported (ok e) = map (λ v. (v.version_number, map (λ p. p.entry_slug) v.placements)) e.versions
exported (err e) = []

both_versions :
    exported (export_board sql season chess.slug) ≡ (1, "bob" ∷ "ann" ∷ []) ∷ (2, "ann" ∷ []) ∷ []
unfolding export_code exported
both_versions = refl

found : Boards.get_by_slug season chess.slug ≡ ok chess
unfolding get_by_slug
found = refl

export_board_complete_example :
    ((e : BoardExport Doc) × (export_board sql season chess.slug ≡ ok e)
      × HoldsAll sql season chess e)
    ⊎ ((export_board sql season chess.slug ≡ err (database invalid_value))
        × (v : Version Doc) × In v season.versions
        × (v.board_id ≡ chess.id)
        × (fetch_placements sql season v.id ≡ err (database invalid_value)))
export_board_complete_example =
    export_board_complete sql season chess ((λ e. omega (arith, e), tt), (tt, tt)) chess.slug found

-- A board that is not tiered may have tiers that are no array; then neither is read.
abbrev spoiled : Db Doc
spoiled = record season {
  boards = record chess { tier_config = some (field "tiers" (num (pos 5)) nil) } ∷ [];
}

nothing_read :
    (export_board sql spoiled chess.slug ≡ err (database invalid_value))
    × (fetch_placements sql spoiled 20 ≡ err (database invalid_value))
unfolding export_code
nothing_read = (refl, refl)
