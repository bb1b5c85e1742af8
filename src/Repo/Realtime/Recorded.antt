-- ===== src/Repo/Realtime/Recorded.antt =====
-- What `snapshot` of crates/riley-leaderboards-core/src/repo/realtime.rs stores.
use riley_leaderboards.Prelude.{ℕ, ◌+◌, String, ◌≡◌, refl, ap, ◌∙◌, some, List, [], ◌∷◌, F64}
use riley_leaderboards.Models.{
  ◌>>=◌, ok_or, bind-eq-ok, ok_or-eq-ok, missing_in_postgres, internal, ok, Uuid, Entry, Placement,
  AccumulatedScore,
}
use riley_leaderboards.Repo.Realtime.Standings.{insert_standings, standing_placement}
use riley_leaderboards.Repo.Scores.{insert_scores}
use riley_leaderboards.Repo.Versions.Placements.{insert_placement, entry_for}

abbrev as_score : Uuid → Uuid → F64 → AccumulatedScore
as_score board_id entry_id score = record {
  id = 0;
  board_id = board_id;
  entry_id = entry_id;
  score = score;
  submitted_at = 0;
}

module _ {V : Type 0} where
  -- Each row of the standings with the entry of the board that has its slug, as a score.
  abbrev pub Scored : List (Entry V) → Uuid → List (String × F64) → List AccumulatedScore → Type 0
  Scored entries board_id [] [] = Unit
  Scored entries board_id (row ∷ rows) (s ∷ ss) =
      ((e : Entry V) × (entry_for entries board_id row.0 ≡ some e)
        × (s.entry_id ≡ e.id)
        × (s.score ≡ row.1))
      × Scored entries board_id rows ss
  Scored entries board_id _ _ = ⊥

  pub insert_standings-eq-ok :
      (entries : List (Entry V)) (board_id version_id : Uuid) (ids : ℕ → Uuid) (i : ℕ)
      (rows : List (String × F64)) (table : List (Placement V)) {table' : List (Placement V)}
      → insert_standings entries board_id version_id ids i rows table ≡ ok table'
      → (ss : List AccumulatedScore) × Scored entries board_id rows ss
        × (insert_scores version_id ids i ss table ≡ ok table')
  unfolding insert_standings insert_scores
  insert_standings-eq-ok entries board_id version_id ids i [] table h = ([], tt, h)
  insert_standings-eq-ok entries board_id version_id ids i ((slug, score) ∷ rows) table h =
      let (entry, found, h) =
        bind-eq-ok (ok_or (entry_for entries board_id slug) (internal (missing_in_postgres slug))) _
          h in
      let (table₁, added, h) =
        bind-eq-ok (insert_placement table (standing_placement version_id (ids i) entry.id score)) _
          h in
      let (ss, scored, later) =
        insert_standings-eq-ok entries board_id version_id ids (i + 1) rows table₁ h in
      (
        as_score board_id entry.id score ∷ ss,
        ((entry, ok_or-eq-ok _ _ found, refl, refl), scored),
        ap (λ r. r >>= λ x. insert_scores version_id ids (i + 1) ss x) added ∙ later,
      )
