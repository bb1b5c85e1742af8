-- ===== src/Tests/Versions.antt =====
-- Versions on concrete tables.
use mathlib.Core.List.{Perm}
use riley_leaderboards.Repo.Versions.Validate.Accepts.{IsPlaceable, validate_placements_iff}
use riley_leaderboards.Repo.Versions.Positions.Ranking.{numbered, derive-keeps_others, derive-ranks}
use riley_leaderboards.Repo.Versions.Numbers.{top, HasNoGap}
use riley_leaderboards.Repo.Versions.Immutability.{
  AreFresh, create-appends, create-HasNoGap, create-keeps_placements,
}
use riley_leaderboards.Prelude.{
  ℕ, ◌+◌, ◌≤◌, ◌<◌, String, ◌≡◌, refl, ◌↔◌, true, not, Option, none, some, List, [], ◌∷◌, ◌++◌, map,
  arith, keep, All, ℤ, max_i32, F64, is_nan, is_infinite, float_key, float_lt, pos, Distinct,
}
use riley_leaderboards.Prelude.Rank.{place, order_by, IsSorted}
use riley_leaderboards.Models.{
  Result, score_not_finite, too_many_versions, validation, ok, err, Uuid, Placement, CreateVersion,
  VersionWithPlacements,
}
use riley_leaderboards.Models.Distinct.{check_distinct}
use riley_leaderboards.Db.{Db}
use riley_leaderboards.Repo.Boards.{latest_number}
use riley_leaderboards.Repo.Versions
use riley_leaderboards.Repo.Versions.{
  lock_board, check_version_limit, next_number, check_version, add_version,
}
use riley_leaderboards.Repo.Versions.Validate.{
  validate_placements, check_by_type, check_positions, check_scores,
}
use riley_leaderboards.Repo.Versions.Positions.{
  score_before, ranks_before, row_numbers, rank_of, assign, of_version, derive_scored_positions,
  ranking,
}
use riley_leaderboards.Repo.Versions.Placements.{
  fetch_placements, run_tier_queries, join_entries, listed_before, entry_for, check_entries,
  insert_placements, insert_placement,
}
use riley_leaderboards.Tests.Base.{
  docs, sql, club, chess, one, two, three, round, keys_from, state, answer,
}

version_code : Unit {0}
unfolding Versions.create validate_placements check_distinct check_positions check_by_type
    check_scores lock_board check_version_limit next_number latest_number check_version
    check_entries entry_for insert_placements insert_placement derive_scored_positions ranking
    order_by place ranks_before score_before float_lt float_key is_nan is_infinite row_numbers
    rank_of assign fetch_placements run_tier_queries join_entries listed_before
version_code = tt

abbrev outcome :
    Db docs.Value
    → ℕ
    → CreateVersion docs.Value
    → Result (VersionWithPlacements docs.Value × Db docs.Value)
outcome db n input = Versions.create docs sql db (keys_from n) chess input (some (pos 2))

-- The states after one round and after two: bob leads the first, ann the second.
abbrev nothing : VersionWithPlacements docs.Value
nothing = record { version = Versions.new_version (keys_from 0) 0 0 none none; placements = [] }

abbrev positions : VersionWithPlacements docs.Value → List (String × Option ℤ)
positions v = map (λ p. (p.entry_slug, p.position)) v.placements

abbrev first_round : Db docs.Value
first_round = state club (outcome club 20 (round one two))

abbrev first_answer : VersionWithPlacements docs.Value
first_answer = answer nothing (outcome club 20 (round one two))

abbrev second_round : Db docs.Value
second_round = state club (outcome first_round 30 (round three two))

abbrev second_answer : VersionWithPlacements docs.Value
second_answer = answer nothing (outcome first_round 30 (round three two))

runs :
    (positions first_answer ≡ ("bob", some (pos 1)) ∷ ("ann", some (pos 2)) ∷ [])
    × (positions second_answer ≡ ("ann", some (pos 1)) ∷ ("bob", some (pos 2)) ∷ [])
    × (outcome second_round 40 (round one two) ≡ err (validation (too_many_versions 2 (pos 2))))
    × (outcome club 20 (round one 9218868437227405312) ≡ err (validation (score_not_finite "bob")))
unfolding version_code
runs = (refl, refl, refl, refl)

second : outcome first_round 30 (round three two) ≡ ok (second_answer, second_round)
unfolding version_code
second = refl

first-HasNoGap : HasNoGap first_round.versions
unfolding version_code
first-HasNoGap b = ground (arith)

first-AreFresh :
    AreFresh docs sql first_round (keys_from 30) chess (round three two) (some (pos 2)) second
unfolding version_code
first-AreFresh = record {
  version = (refl, (refl, tt));
  placements = λ i. (λ e. omega (arith, e), (λ e. omega (arith, e), tt));
  apart = λ i j h e. omega (arith, h, e);
  distinct = ((λ e. omega (arith, e), tt), (tt, tt));
}

create-appends_example :
    (second_answer.version.board_id ≡ 1)
    × (second_answer.version.version_number ≡ top first_round.versions 1 + 1)
    × (second_answer.version.version_number ≤ max_i32)
    × All
        (λ v. v.board_id ≡ 1 → v.version_number < second_answer.version.version_number)
        first_round.versions
    × (second_round ≡ record first_round {
      versions = first_round.versions ++ second_answer.version ∷ [];
      placements = second_round.placements;
    })
create-appends_example =
    create-appends docs sql first_round (keys_from 30) chess (round three two) (some (pos 2)) second

create-HasNoGap_example : HasNoGap second_round.versions
create-HasNoGap_example =
    create-HasNoGap docs sql first_round (keys_from 30) chess (round three two) (some (pos 2))
      second first-HasNoGap

create-keeps_placements_example :
    keep (λ p. not (of_version 30 p)) second_round.placements ≡ first_round.placements
create-keeps_placements_example =
    create-keeps_placements docs sql first_round (keys_from 30) chess (round three two)
      (some (pos 2)) second first-AreFresh

validate_placements_iff_example :
    (validate_placements docs chess (round one two).placements ≡ ok tt)
    ↔ IsPlaceable docs chess (round one two).placements
validate_placements_iff_example = validate_placements_iff docs chess (round one two).placements

-- Two placements of version 5 and one of version 6.
abbrev row : Uuid → Uuid → F64 → Placement docs.Value
row id version score = record {
  id = id;
  version_id = version;
  entry_id = id;
  position = none;
  score = some score;
  tier = none;
  metadata = none;
}

abbrev rows : List (Placement docs.Value)
rows = row 1 5 one ∷ row 2 6 three ∷ row 3 5 two ∷ []

rows-Distinct : Distinct (map (λ p. p.id) rows)
rows-Distinct =
    ((λ e. omega (arith, e), (λ e. omega (arith, e), tt)), ((λ e. omega (arith, e), tt), (tt, tt)))

derive-keeps_others_example :
    keep (λ p. not (of_version 5 p)) (derive_scored_positions 5 "asc" rows)
    ≡ keep (λ p. not (of_version 5 p)) rows
derive-keeps_others_example = derive-keeps_others 5 "asc" rows rows-Distinct

derive-ranks_example :
    (order : List (Placement docs.Value)) × Perm order (keep (of_version 5) rows)
    × IsSorted (ranks_before true) order
    × Perm (keep (of_version 5) (derive_scored_positions 5 "asc" rows)) (numbered 1 order)
derive-ranks_example = derive-ranks 5 "asc" rows rows-Distinct
