-- ===== src/Tests/Scores.antt =====
-- Submitted scores and snapshots on concrete tables.
use mathlib.Core.List.{Perm}
use riley_leaderboards.Prelude.{
  ℕ, ◌+◌, String, ◌≡◌, refl, true, not, Option, none, some, List, [], ◌∷◌, map, arith, ◌==◌, keep,
  find, ℤ, F64, is_nan, is_infinite, float_key, float_lt, pos, bytes,
}
use riley_leaderboards.Models.{
  Result, ok, Board, Placement, VersionWithPlacements, AccumulatedScore,
}
use riley_leaderboards.Db.{Db}
use riley_leaderboards.Prelude.Rank.{place, order_by, IsSorted}
use riley_leaderboards.Repo.{validate_slug, validate_name}
use riley_leaderboards.Repo.Boards.{latest_number}
use riley_leaderboards.Repo.Scores
use riley_leaderboards.Repo.Scores.{
  of_entry, upsert_entry, upsert_score, board_scores, insert_scores, snapshot_placements,
}
use riley_leaderboards.Repo.Scores.Submitted.{submit-Stored}
use riley_leaderboards.Repo.Scores.Inserted.{score_rows, IsFresh}
use riley_leaderboards.Repo.Scores.Snapshots.{
  snapshot-HasNoGap, snapshot-keeps_placements, snapshot-ranks,
}
use riley_leaderboards.Repo.Versions.{
  lock_board, check_version_limit, next_number, check_version, new_version,
}
use riley_leaderboards.Repo.Versions.Numbers.{HasNoGap}
use riley_leaderboards.Repo.Versions.Positions.{
  score_before, ranks_before, row_numbers, rank_of, assign, of_version, derive_scored_positions,
  ranking,
}
use riley_leaderboards.Repo.Versions.Positions.Ranking.{numbered}
use riley_leaderboards.Repo.Versions.Placements.{join_entries, insert_placement}
use riley_leaderboards.Tests.Base.{
  docs, sql, club, chess, one, two, three, keys_from, state, answer,
}

score_code : Unit {0}
unfolding Scores.submit Scores.snapshot validate_slug validate_name bytes upsert_entry upsert_score
    board_scores insert_scores insert_placement lock_board check_version_limit next_number
    latest_number check_version derive_scored_positions ranking order_by place ranks_before
    score_before float_lt float_key is_nan is_infinite row_numbers rank_of assign
    snapshot_placements join_entries
score_code = tt

-- The same board, but accumulative.
abbrev ladder : Board docs.Value
ladder = record chess { accumulative = true }

abbrev ladder_club : Db docs.Value
ladder_club = record club { boards = ladder ∷ [] }

abbrev submitted : Db docs.Value → String → F64 → ℕ → Result (AccumulatedScore × Db docs.Value)
submitted db slug score n =
    Scores.submit db n (n + 1) n ladder
      (record { entry_slug = slug; entry_name = slug; score = score })

abbrev no_score : AccumulatedScore
no_score = record { id = 0; board_id = 0; entry_id = 0; score = 0; submitted_at = 0 }

-- Ann submits 1.0, cid (who is new) 2.0, and ann 3.0.
abbrev ann_played : Db docs.Value
ann_played = state ladder_club (submitted ladder_club "ann" one 50)

abbrev cid_played : Db docs.Value
cid_played = state ann_played (submitted ann_played "cid" two 60)

abbrev ann_again : Db docs.Value
ann_again = state cid_played (submitted cid_played "ann" three 70)

abbrev ann_score : AccumulatedScore
ann_score = answer no_score (submitted cid_played "ann" three 70)

resubmitted : submitted cid_played "ann" three 70 ≡ ok (ann_score, ann_again)
unfolding score_code
resubmitted = refl

abbrev taken : Result (VersionWithPlacements docs.Value × Db docs.Value)
taken = Scores.snapshot sql ann_again (keys_from 80) ladder none none (some (pos 5)) (some 10)

abbrev nothing : VersionWithPlacements docs.Value
nothing = record { version = new_version (keys_from 0) 0 0 none none; placements = [] }

abbrev after_snapshot : Db docs.Value
after_snapshot = state ann_again taken

abbrev snapped_version : VersionWithPlacements docs.Value
snapped_version = answer nothing taken

snapped_ok : taken ≡ ok (snapped_version, after_snapshot)
unfolding score_code
snapped_ok = refl

ranking_run :
    map {B = String × Option ℤ} (λ p. (p.entry_slug, p.position)) snapped_version.placements
    ≡ ("ann", some (pos 1)) ∷ ("cid", some (pos 2)) ∷ []
unfolding score_code
ranking_run = refl

again-IsFresh : IsFresh ann_again (keys_from 80)
unfolding score_code
again-IsFresh = record {
  version = tt;
  placements = λ i. tt;
  apart = λ i j h e. omega (arith, h, e);
  distinct = tt;
}

again-HasNoGap : HasNoGap ann_again.versions
unfolding score_code
again-HasNoGap b = refl

submit-Stored_example :
    (ann_score.score ≡ three)
    × (find (of_entry 1 ann_score.entry_id) ann_again.accumulated_scores ≡ some ann_score)
    × (keep (λ t. not (of_entry 1 ann_score.entry_id t)) ann_again.accumulated_scores
        ≡ keep (λ t. not (of_entry 1 ann_score.entry_id t)) cid_played.accumulated_scores)
    × (ann_again.versions ≡ cid_played.versions)
    × (ann_again.placements ≡ cid_played.placements)
submit-Stored_example =
    submit-Stored cid_played 70 71 70 ladder
      (record { entry_slug = "ann"; entry_name = "ann"; score = three }) resubmitted

snapshot-HasNoGap_example : HasNoGap after_snapshot.versions
snapshot-HasNoGap_example =
    snapshot-HasNoGap sql ann_again (keys_from 80) ladder none none (some (pos 5)) (some 10)
      snapped_ok again-HasNoGap

snapshot-keeps_placements_example :
    keep (λ p. not (of_version 80 p)) after_snapshot.placements ≡ ann_again.placements
snapshot-keeps_placements_example =
    snapshot-keeps_placements sql ann_again (keys_from 80) ladder none none (some (pos 5)) (some 10)
      snapped_ok again-IsFresh

snapshot-ranks_example :
    (board : Board docs.Value) × (lock_board ann_again 1 ≡ ok board)
    × (order : List (Placement docs.Value)) × Perm order
        (score_rows 80 (keys_from 80).placement_ids 0 (board_scores ann_again 1))
    × IsSorted (ranks_before (board.sort_direction == "asc")) order
    × Perm (keep (of_version 80) after_snapshot.placements) (numbered 1 order)
snapshot-ranks_example =
    snapshot-ranks sql ann_again (keys_from 80) ladder none none (some (pos 5)) (some 10) snapped_ok
      again-IsFresh
