-- ===== src/Repo/Scores/Submitted.antt =====
-- What `submit` of repo/scores.rs stores.
use mathlib.Core.Path.{subst}
use mathlib.Core.List.{append-nil}
use riley_leaderboards.Prelude.{
  String, ◌≡◌, refl, sym, ap, ◌∙◌, inl, inr, Bool, true, not, ◌||◌, none, some, List, [], ◌∷◌, ◌++◌,
  map, arith, ◌==◌, num_eq, num_eq_iff, if◌then◌else◌, Bool-cases, Option-cases, any, keep, find,
  F64, is_nan, is_infinite, find-passes, keep-append,
}
use riley_leaderboards.Models.{
  refuse_if, ok-injective, guard-eq-ok, submit_not_accumulative, submit_not_scored, score_infinite,
  foreign_key_violation, database, validation, ok, Uuid, DateTime, Board, AccumulatedScore,
  SubmitScore,
}
use riley_leaderboards.Db.{Db}
use riley_leaderboards.Repo.{validate_slug, validate_name}
use riley_leaderboards.Repo.Entries.{find_entry}
use riley_leaderboards.Repo.Scores
use riley_leaderboards.Repo.Scores.{
  new_score, of_entry, rescore, scores_after, upsert_score, upsert_entry,
}

find-append :
    {A : Type 0} (p : A → Bool) (xs : List A) (x : A)
    → find p xs ≡ none
    → p x ≡ true
    → find p (xs ++ x ∷ []) ≡ some x
find-append p [] x h e = rw e
find-append p (y ∷ xs) x h e = ground (arith, find-append p xs x)

module _ (now : DateTime) (board_id entry_id : Uuid) (points : F64) where
  of : AccumulatedScore → Bool
  of s = of_entry board_id entry_id s

  step : AccumulatedScore → AccumulatedScore
  step t = if of t then rescore now points t else t

  find-step :
      (table : List AccumulatedScore) {s : AccumulatedScore}
      → find of table ≡ some s
      → find of (map step table) ≡ some (rescore now points s)
  unfolding step of
  find-step [] h = cc
  find-step (t ∷ table) {s} h = elim (Bool-cases (of_entry board_id entry_id t)) [
    | inl e ↦
        let same : t ≡ s = ground (arith) in rw (e, e) (ap (λ r. some (rescore now points r)) same)
    | inr e ↦ rw (e, e) (find-step table (rw e at h))
  ]

  keep-step :
      (table : List AccumulatedScore)
      → keep (λ t. not (of t)) (map step table) ≡ keep (λ t. not (of t)) table
  unfolding step of
  keep-step [] = refl
  keep-step (t ∷ table) = elim (Bool-cases (of_entry board_id entry_id t)) [
    | inl e ↦ rw (e, e) (keep-step table)
    | inr e ↦ rw (e, e) (ap (◌∷◌ t) (keep-step table))
  ]

  -- What the table of scores holds after the upsert that returned `s`.
  pub record Stored (before after : List AccumulatedScore) (s : AccumulatedScore) : Type 0 where
    pub entry : s.entry_id ≡ entry_id
    pub score : s.score ≡ points
    pub found : find (of_entry board_id entry_id) after ≡ some s
    pub others :
        keep (λ t. not (of_entry board_id entry_id t)) after
        ≡ keep (λ t. not (of_entry board_id entry_id t)) before

  upsert_score-Stored :
      (id : Uuid) (table : List AccumulatedScore)
      → Stored table
          (upsert_score id now board_id entry_id points table).1
          (upsert_score id now board_id entry_id points table).0
  unfolding upsert_score step of
  upsert_score-Stored id table = elim (Option-cases (find (of_entry board_id entry_id) table)) [
    | inl e ↦
        let mine : of_entry board_id entry_id (new_score id now board_id entry_id points) ≡ true =
          ground
            (arith, (num_eq_iff board_id board_id).1 refl, (num_eq_iff entry_id entry_id).1 refl) in
        rw e (record {
          entry = refl;
          score = refl;
          found = find-append (of_entry board_id entry_id) table _ e mine;
          others = keep-append _ table _ ∙ rw mine (append-nil _);
        })
    | inr (s, e) ↦ rw e (record {
      entry =
          ground (
            arith,
            num_eq_iff s.entry_id entry_id,
            find-passes (of_entry board_id entry_id) table e,
          );
      score = refl;
      found = find-step table e;
      others = keep-step table;
    })
  ]

module _ {V : Type 0} where
  upsert_entry-frame :
      (db : Db V) (id : Uuid) (now : DateTime) (board_id : Uuid) (slug name : String)
      → ((upsert_entry db id now board_id slug name).1.accumulated_scores ≡ db.accumulated_scores)
        × ((upsert_entry db id now board_id slug name).1.versions ≡ db.versions)
        × ((upsert_entry db id now board_id slug name).1.placements ≡ db.placements)
  unfolding upsert_entry
  upsert_entry-frame db id now board_id slug name =
      elim (Option-cases (find_entry db board_id slug)) [
        | inl e ↦ rw e (refl, refl, refl)
        | inr (x, e) ↦ rw e (refl, refl, refl)
      ]

  -- A score that `submit` returns is the submitted one, it is the stored score of its entry, and
  -- the scores of the other entries and boards stay, as do the versions and their placements.
  pub submit-Stored :
      (db : Db V) (entry_id score_id : Uuid) (now : DateTime) (board : Board V)
      (input : SubmitScore) {s : AccumulatedScore} {db' : Db V}
      → Scores.submit db entry_id score_id now board input ≡ ok (s, db')
      → (s.score ≡ input.score)
        × (find (of_entry board.id s.entry_id) db'.accumulated_scores ≡ some s)
        × (keep (λ t. not (of_entry board.id s.entry_id t)) db'.accumulated_scores
            ≡ keep (λ t. not (of_entry board.id s.entry_id t)) db.accumulated_scores)
        × (db'.versions ≡ db.versions)
        × (db'.placements ≡ db.placements)
  unfolding Scores.submit
  submit-Stored db entry_id score_id now board input {s} {db'} h =
      let (_, h) =
        guard-eq-ok (refuse_if (not board.accumulative) (validation submit_not_accumulative)) _ h in
      let (_, h) =
        guard-eq-ok (refuse_if (not (board.board_type == "scored")) (validation submit_not_scored))
          _ h in
      let (_, h) =
        guard-eq-ok
          (refuse_if (is_nan input.score || is_infinite input.score) (validation score_infinite)) _
          h in
      let (_, h) = guard-eq-ok (validate_slug input.entry_slug) _ h in
      let (_, h) = guard-eq-ok (validate_name input.entry_name) _ h in
      let (_, h) =
        guard-eq-ok
          (refuse_if (not (any (λ b. num_eq b.id board.id) db.boards))
            (database foreign_key_violation))
          _ h in
      let u = upsert_entry db entry_id now board.id input.entry_slug input.entry_name in
      let (scores, versions, placements) =
        upsert_entry-frame db entry_id now board.id input.entry_slug input.entry_name in
      let result = upsert_score score_id now board.id u.0 input.score u.1.accumulated_scores in
      let stored =
        upsert_score-Stored now board.id u.0 input.score score_id u.1.accumulated_scores in
      subst
        (λ (t : AccumulatedScore × Db V).
          (t.0.score ≡ input.score)
          × (find (of_entry board.id t.0.entry_id) t.1.accumulated_scores ≡ some t.0)
          × (keep (λ r. not (of_entry board.id t.0.entry_id r)) t.1.accumulated_scores
              ≡ keep (λ r. not (of_entry board.id t.0.entry_id r)) db.accumulated_scores)
          × (t.1.versions ≡ db.versions)
          × (t.1.placements ≡ db.placements))
        (ok-injective h)
        (
          stored.score,
          subst (λ i. find (of_entry board.id i) result.1 ≡ some result.0) (sym stored.entry)
              stored.found,
          subst
              (λ i.
                keep (λ r. not (of_entry board.id i r)) result.1
                ≡ keep (λ r. not (of_entry board.id i r)) db.accumulated_scores)
              (sym stored.entry)
              (stored.others ∙ ap (keep (λ r. not (of_entry board.id u.0 r))) scores),
          versions,
          placements,
        )
