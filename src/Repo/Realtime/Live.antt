-- ===== src/Repo/Realtime/Live.antt =====
-- The live standings that `latest` of crates/riley-leaderboards-core/src/repo/realtime.rs shows.
use mathlib.Core.Path.{subst}
use riley_leaderboards.Prelude.{
  ℕ, ◌+◌, String, ◌≡◌, refl, sym, ap, ◌∙◌, inl, inr, true, not, ◌||◌, Option, some, List, [], ◌∷◌,
  map, ◌==◌, num_eq, Bool-cases, unwrap_or, any, In, F64, is_nan, is_infinite,
}
use riley_leaderboards.Models.{
  Result, refuse_if, ok-injective, score_infinite, submit_not_realtime, redis_failed,
  foreign_key_violation, database, validation, ok, Uuid, DateTime, Board, PlacementWithEntry,
  VersionWithPlacements, SubmitScore,
}
use riley_leaderboards.Db.{Db}
use riley_leaderboards.Repo.{validate_slug, validate_name}
use riley_leaderboards.Repo.Realtime.{
  scores_key, entries_key, names_of, live_placement, live_placements, submit, standings_of, latest,
}
use riley_leaderboards.Models.Steps.{lift-eq-ok}
use riley_leaderboards.Repo.Realtime.Server.{
  Command, Redis, put, RedisLaws, answer, answer-eq-ok, run_last-eq-ok,
}

-- A member of the rows that are read stands among their members.
In-members :
    (row : String × F64) (rows : List (String × F64))
    → In row rows
    → In row.0 (map (λ (r : String × F64). r.0) rows)
In-members row [] m = m
In-members row (r ∷ rows) (inl e) = inl (ap (λ (q : String × F64). q.0) e)
In-members row (r ∷ rows) (inr m) = inr (In-members row rows m)

module _ {V : Type 0} where
  -- The placement shows the score under the name of the entry.
  abbrev pub Shows : String → String → F64 → PlacementWithEntry V → Type 0
  Shows slug name score p = (p.entry_slug ≡ slug) × (p.entry_name ≡ name) × (p.score ≡ some score)

  In-live_placements :
      (slug name : String) (score : F64) (field : String → Option String)
      → field slug ≡ some name
      → (i : ℕ) (rows : List (String × F64)) → In (slug, score) rows
      → (p : PlacementWithEntry V) × In p
          (live_placements i rows (map field (map (λ (r : String × F64). r.0) rows)))
        × Shows slug name score p
  unfolding live_placements
  In-live_placements slug name score field h i [] m = absurd m
  In-live_placements slug name score field h i ((k, x) ∷ rows) (inl e) =
      let same : slug ≡ k = ap (λ (r : String × F64). r.0) e in
      let shown : score ≡ x = ap (λ (r : String × F64). r.1) e in
      (
        live_placement i (k, x) (field k),
        inl refl,
        (sym same, ap (λ o. unwrap_or o k) (ap field (sym same) ∙ h), ap some (sym shown)),
      )
  In-live_placements slug name score field h i (row ∷ rows) (inr m) =
      let (p, found, shows) = In-live_placements slug name score field h (i + 1) rows m in
      (p, inr found, shows)

module _ (redis : Redis) where
  names_of-hget :
      (key : String) (row : String × F64) (rows : List (String × F64)) (s : redis.State)
      → In row rows
      → names_of redis key rows s ≡ redis.hget key (map (λ (r : String × F64). r.0) rows) s
  names_of-hget key row [] s m = absurd m
  names_of-hget key row (r ∷ rows) s m = refl

module _ (redis : Redis) (laws : RedisLaws redis) {V : Type 0} where
  abbrev stored : Board V → SubmitScore → String → List Command
  stored board input prefix =
      put (scores_key prefix board.slug) (entries_key prefix board.slug) input.entry_slug
        input.entry_name input.score

  submit-eq-ok :
      (entry_id : Uuid) (now : DateTime) (board : Board V) (input : SubmitScore) (prefix : String)
      (s : redis.State) (db : Db V) {x : redis.State × Db V}
      → submit redis V entry_id now board input prefix (s, db) ≡ (x, ok tt)
      → redis.pipe (stored board input prefix) s ≡ (x.0, true)
  unfolding submit
  submit-eq-ok entry_id now board input prefix s db h =
      let (_, _, h) =
        lift-eq-ok _ (refuse_if (not board.realtime) (validation submit_not_realtime)) _ h in
      let (_, _, h) =
        lift-eq-ok _
          (refuse_if (is_nan input.score || is_infinite input.score) (validation score_infinite)) _
          h in
      let (_, _, h) = lift-eq-ok _ (validate_slug input.entry_slug) _ h in
      let (_, _, h) = lift-eq-ok _ (validate_name input.entry_name) _ h in
      let (_, _, h) =
        lift-eq-ok _
          (refuse_if (not (any (λ b. num_eq b.id board.id) db.boards))
            (database foreign_key_violation))
          _ h in
      run_last-eq-ok redis.pipe redis_failed (stored board input prefix) s _ h

  rows-zadd :
      (board : Board V) (input : SubmitScore) (prefix : String) (s s' : redis.State)
      (rows : List (String × F64))
      → redis.pipe (stored board input prefix) s ≡ (s', true)
      → standings_of redis V board (scores_key prefix board.slug) s' ≡ some rows
      → In (input.entry_slug, input.score) rows
  rows-zadd board input prefix s s' rows h =
      let key = scores_key prefix board.slug in
      let m = laws.In-sorted_set _ _ _ _ _ s s' h in
      elim (Bool-cases (board.sort_direction == "asc")) [
        | inl e ↦ rw e (λ got. laws.In-zrange key s' rows _ got m)
        | inr e ↦ rw e (λ got.
            subst (λ l. In (input.entry_slug, input.score) l)
              (laws.zrevrange-eq-some key s' rows got) m)
      ]

  -- When `submit` stores a score on a realtime board and `latest` then returns the standings, they
  -- show the entry with that score and with the name that was submitted.
  pub submit-latest :
      (entry_id : Uuid) (now later : DateTime) (board : Board V) (input : SubmitScore)
      (prefix : String) (s : redis.State) (db : Db V) {x y : redis.State × Db V}
      {r : VersionWithPlacements V}
      → submit redis V entry_id now board input prefix (s, db) ≡ (x, ok tt)
      → latest redis V later board prefix x ≡ (y, ok r)
      → (p : PlacementWithEntry V) × In p r.placements
        × Shows input.entry_slug input.entry_name input.score p
  unfolding latest
  submit-latest entry_id now later board input prefix s db {x} submitted_ok h =
      let piped = submit-eq-ok entry_id now board input prefix s db submitted_ok in
      let (rows, got, h) =
        lift-eq-ok _
          (answer redis_failed (standings_of redis V board (scores_key prefix board.slug) x.0)) _
          h in
      let (names, named, h) =
        lift-eq-ok _ (answer redis_failed (names_of redis (entries_key prefix board.slug) rows x.0))
          _ h in
      let m = rows-zadd board input prefix s x.0 rows piped (answer-eq-ok _ _ got) in
      let (field, fields, set) =
        laws.hget-hset (scores_key prefix board.slug) (entries_key prefix board.slug)
          input.entry_slug input.entry_name input.score s x.0 (map (λ (q : String × F64). q.0) rows)
          names piped (In-members _ rows m)
          (sym (names_of-hget redis (entries_key prefix board.slug) _ rows x.0 m)
            ∙ answer-eq-ok _ _ named) in
      let (p, found, shows) =
        In-live_placements input.entry_slug input.entry_name input.score field set 0 rows m in
      (
        p,
        subst (λ l. In p l)
            (ap (live_placements 0 rows) (sym fields)
              ∙ ap (λ (q : VersionWithPlacements V). q.placements)
                  (ok-injective
                    (ap (λ (q : (redis.State × Db V) × Result (VersionWithPlacements V)). q.1) h)))
            found,
        shows,
      )
