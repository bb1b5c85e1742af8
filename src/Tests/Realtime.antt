-- ===== src/Tests/Realtime.antt =====
-- Scores and snapshots of a realtime board.
use riley_leaderboards.Prelude.{
  String, ◌≡◌, refl, true, Option, none, some, List, [], ◌∷◌, map, arith, In, ℤ, F64, is_nan,
  is_infinite, float_key, float_lt, pos, bytes,
}
use riley_leaderboards.Models.{
  Result, ok, err, Board, PlacementWithEntry, VersionWithPlacements, AccumulatedScore, SubmitScore,
}
use riley_leaderboards.Db.{Db}
use riley_leaderboards.Repo.{validate_slug, validate_name}
use riley_leaderboards.Repo.Realtime.{scores_key, entries_key, live_placements, submit, latest}
use riley_leaderboards.Tests.Redis.{Store, lists, lists_laws}
use riley_leaderboards.Repo.Realtime.Snapshot.{Isolated, isolate, store, snapshot}
use riley_leaderboards.Repo.Realtime.Standings.{insert_standings}
use riley_leaderboards.Repo.Realtime.Recorded.{Scored}
use riley_leaderboards.Repo.Realtime.Isolation.{idle, submitted, snapshot-isolated}
use riley_leaderboards.Repo.Realtime.Live.{Shows, submit-latest}
use riley_leaderboards.Repo.Scores.Inserted.{IsFresh, IsRanked}
use riley_leaderboards.Prelude.Rank.{place, order_by}
use riley_leaderboards.Repo.Boards.{latest_number}
use riley_leaderboards.Repo.Scores.{upsert_entry, snapshot_placements}
use riley_leaderboards.Repo.Versions.{check_version_limit, next_number, check_version, lock_board}
use riley_leaderboards.Repo.Versions.Placements.{
  join_entries, listed_before, entry_for, insert_placement,
}
use riley_leaderboards.Repo.Versions.Positions.{
  score_before, rank_of, ranks_before, row_numbers, assign, ranking, derive_scored_positions,
}
use riley_leaderboards.Tests.Base.{Doc, sql, chess, club, two, three, keys_from}

abbrev arena : Board Doc
arena = record chess {
  slug = "arena";
  accumulative = true;
  realtime = true;
  clear_on_snapshot = true;
}

abbrev hall : Db Doc
hall = record club { boards = arena ∷ [] }

abbrev quiet : Store
quiet = record { sets = []; hashes = [] }

abbrev entered : String → F64 → SubmitScore
entered slug score = record { entry_slug = slug; entry_name = slug; score = score }

realtime_code : Unit {0}
unfolding bytes validate_slug validate_name is_nan is_infinite float_key float_lt scores_key
    entries_key submit latest live_placements insert_standings isolate store snapshot lock_board
    check_version_limit next_number check_version entry_for insert_placement join_entries
    listed_before snapshot_placements score_before ranks_before rank_of row_numbers assign ranking
    derive_scored_positions upsert_entry order_by place latest_number
realtime_code = tt

abbrev sent : SubmitScore → Store × Db Doc → Store × Db Doc
sent input x = (submit lists Doc 20 200 arena input "rl" x).0

-- Two scores, a snapshot, and one score more while it is taken.
abbrev played : Store × Db Doc
played = sent (entered "bob" three) (sent (entered "ann" two) (quiet, hall))

abbrev hidden : (Store × Db Doc) × Result Isolated
hidden = isolate lists Doc arena "rl" "u1" played

abbrev meanwhile : Store × Db Doc
meanwhile = sent (entered "ann" three) hidden.0

abbrev taken : (Store × Db Doc) × Result (VersionWithPlacements Doc)
taken =
    store lists Doc sql (keys_from 500) arena none none none none
      (record {
        read_sk = "rl:board:arena:scores:snap:u1";
        snap_keys = some ("rl:board:arena:scores:snap:u1", "rl:board:arena:entries:snap:u1");
      })
      meanwhile

positions : List (PlacementWithEntry Doc) → List (String × Option ℤ)
positions = map (λ p. (p.entry_slug, p.position))

abbrev rows_of : Result (VersionWithPlacements Doc) → List (String × Option ℤ)
rows_of (ok r) = positions r.placements
rows_of (err e) = []

isolated_snapshot : rows_of taken.1 ≡ ("bob", some (pos 1)) ∷ ("ann", some (pos 2)) ∷ []
unfolding realtime_code positions
isolated_snapshot = refl

after_snapshot : taken.0.0.sets ≡ ("rl:board:arena:scores", ("ann", three) ∷ []) ∷ []
unfolding realtime_code
after_snapshot = refl

meanwhile-IsFresh : IsFresh meanwhile.1 (keys_from 500)
unfolding realtime_code
meanwhile-IsFresh = record {
  version = tt;
  placements = λ i. tt;
  apart = λ i j h e. omega (arith, h, e);
  distinct = tt;
}

snapshot-isolated_example :
    (board : Board Doc) × (lock_board meanwhile.1 1 ≡ ok board)
    × (ss : List AccumulatedScore) × Scored meanwhile.1.entries board.id
        (("ann", two) ∷ ("bob", three) ∷ [])
        ss
    × IsRanked (keys_from 500) board.sort_direction ss taken.0.1.placements
unfolding realtime_code lists_laws
snapshot-isolated_example =
    snapshot-isolated lists lists_laws sql (keys_from 500) "u1" "rl" arena none none none none
      played.0 played.1 {x = hidden.0} {y = meanwhile} {z = taken.0} refl refl
      (submitted 20 200 (entered "ann" three) idle) refl meanwhile-IsFresh

abbrev shown : (Store × Db Doc) × Result (VersionWithPlacements Doc)
shown = latest lists Doc 300 arena "rl" (sent (entered "ann" two) (quiet, hall))

abbrev live : Result (VersionWithPlacements Doc) → List (PlacementWithEntry Doc)
live (ok r) = r.placements
live (err e) = []

submit-latest_example : (p : PlacementWithEntry Doc) × In p (live shown.1) × Shows "ann" "ann" two p
unfolding realtime_code
submit-latest_example =
    submit-latest lists lists_laws 20 200 300 arena (entered "ann" two) "rl" quiet hall refl refl

-- The scores of a snapshot that a limit refuses are deleted with the temporary keys.
refused_snapshot :
    (snapshot lists Doc sql
      (keys_from 500)
      "u1"
      arena
      none
      none
      "rl"
      (some (pos 0))
      none
      played).0.0
    ≡ quiet
unfolding realtime_code
refused_snapshot = refl
