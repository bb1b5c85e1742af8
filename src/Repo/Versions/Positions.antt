-- ===== src/Repo/Versions/Positions.antt =====
-- `derive_scored_positions` of crates/riley-leaderboards-core/src/repo/versions.rs: the UPDATE
-- that numbers the placements of a version by ROW_NUMBER over their scores.
pub mod Order
pub mod Ranking
use riley_leaderboards.Prelude.{
  ℕ, ◌+◌, String, Bool, true, false, not, ◌&&◌, ◌||◌, Option, none, some, List, [], ◌∷◌, map, ◌==◌,
  ltb, num_eq, if◌then◌else◌, keep, F64, float_lt, pos,
}
use riley_leaderboards.Prelude.Rank.{order_by}
use riley_leaderboards.Models.{Uuid, Placement}

-- `score {order} NULLS LAST`, as a strict order
unfoldable pub score_before : Bool → Option F64 → Option F64 → Bool
score_before asc (some x) (some y) = if asc then float_lt x y else float_lt y x
score_before asc (some x) none = true
score_before asc none _ = false

unfoldable pub rank_of : Uuid → List (Uuid × ℕ) → Option ℕ
rank_of id [] = none
rank_of id ((i, n) ∷ ranked) = if num_eq i id then some n else rank_of id ranked

module _ {V : Type 0} where
  -- `ORDER BY score {order} NULLS LAST, entry_id ASC`
  unfoldable pub ranks_before : Bool → Placement V → Placement V → Bool
  ranks_before asc p q =
      score_before asc p.score q.score
      || (not (score_before asc q.score p.score) && ltb p.entry_id q.entry_id)

  -- ROW_NUMBER(), beside the key of the row
  unfoldable pub row_numbers : ℕ → List (Placement V) → List (Uuid × ℕ)
  row_numbers n [] = []
  row_numbers n (p ∷ ps) = (p.id, n) ∷ row_numbers (n + 1) ps

  abbrev pub with_rank : Placement V → Option ℕ → Placement V
  with_rank p none = p
  with_rank p (some n) = record p { position = some (pos n) }

  unfoldable pub assign : List (Uuid × ℕ) → Placement V → Placement V
  assign ranked p = with_rank p (rank_of p.id ranked)

  abbrev pub of_version : Uuid → Placement V → Bool
  of_version version_id p = num_eq p.version_id version_id

  -- The rows of a version in the order of their ranks.
  unfoldable pub ranking : Uuid → String → List (Placement V) → List (Placement V)
  ranking version_id sort_direction placements =
      order_by (ranks_before (sort_direction == "asc")) (keep (of_version version_id) placements)

  unfoldable pub derive_scored_positions : Uuid → String → List (Placement V) → List (Placement V)
  unfolding ranking assign
  derive_scored_positions version_id sort_direction placements =
      map (assign (row_numbers 1 (ranking version_id sort_direction placements))) placements
