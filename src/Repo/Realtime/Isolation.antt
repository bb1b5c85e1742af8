-- ===== src/Repo/Realtime/Isolation.antt =====
-- The isolation of a snapshot: `snapshot` and `submit` of
-- crates/riley-leaderboards-core/src/repo/realtime.rs, with submissions between the renaming of
-- the keys and the reading of the standings.
use mathlib.Core.Path.{subst}
use riley_leaderboards.Repo.Realtime.KeyNames.{snap_key-ne, entries_key-ne, entries_snap_key-ne}
use riley_leaderboards.Prelude.{
  ℕ, String, ◌≡◌, refl, sym, ap, ◌∙◌, Bool, true, false, not, ◌||◌, Option, List, ◌==◌, num_eq, any,
  ℤ, is_nan, is_infinite,
}
use riley_leaderboards.Models.{
  Result, refuse_if, score_infinite, submit_not_realtime, no_scores, redis_failed, rename_failed,
  foreign_key_violation, database, validation, ok, err, Uuid, DateTime, Board,
  VersionWithPlacements, AccumulatedScore, SubmitScore,
}
use riley_leaderboards.Db.{Db}
use riley_leaderboards.Repo.{validate_slug, validate_name}
use riley_leaderboards.Repo.Realtime.{scores_key, entries_key, submit}
use riley_leaderboards.Models.Steps.{lift-eq-ok, lift-keeps}
use riley_leaderboards.Repo.Realtime.Server.{Redis, put, RedisLaws, answer, run-eq-ok, run-state}
use riley_leaderboards.Repo.Realtime.Recorded.{Scored, insert_standings-eq-ok}
use riley_leaderboards.Repo.Realtime.Stored.{store-Stored}
use riley_leaderboards.Repo.Scores.Inserted.{IsFresh, IsRanked, derived-IsRanked}
use riley_leaderboards.Repo.Versions.{lock_board, Keys}
use riley_leaderboards.Repo.Versions.Placements.{Sql}
use riley_leaderboards.Repo.Realtime.Snapshot.{
  Isolated, snap_key, renames, rename_keys, isolate, store,
}

module _ (redis : Redis) (V : Type 0) where
  -- Any number of submissions to a board, by other clients, whether they succeed or not.
  pub data Submissions (board : Board V) (prefix : String)
      : redis.State × Db V → redis.State × Db V → Type 0 where
    idle : {x : redis.State × Db V} → Submissions board prefix x x
    submitted :
        {x y : redis.State × Db V} (entry_id : Uuid) (now : DateTime) (input : SubmitScore)
        → Submissions board prefix (submit redis V entry_id now board input prefix x).0 y
        → Submissions board prefix x y

module _ (redis : Redis) (laws : RedisLaws redis) where
  renames-sorted_set :
      (entries : Bool) (prefix slug snap_id : String) (s s' : redis.State)
      → redis.pipe
          (renames entries
            (scores_key prefix slug)
            (snap_key (scores_key prefix slug) snap_id)
            (entries_key prefix slug)
            (snap_key (entries_key prefix slug) snap_id))
          s
        ≡ (s', true)
      → laws.sorted_set (snap_key (scores_key prefix slug) snap_id) s'
        ≡ laws.sorted_set (scores_key prefix slug) s
  renames-sorted_set true prefix slug snap_id s s' h =
      laws.sorted_set-renames _ _ _ _ s s' h (entries_key-ne prefix slug snap_id)
        (entries_snap_key-ne prefix slug snap_id)
  renames-sorted_set false prefix slug snap_id s s' h = laws.sorted_set-rename _ _ s s' h

module _ (redis : Redis) (laws : RedisLaws redis) {V : Type 0} where
  submit-keeps_key :
      (entry_id : Uuid) (now : DateTime) (board : Board V) (input : SubmitScore)
      (prefix other : String) (s : redis.State) (db : Db V)
      → (scores_key prefix board.slug == other) ≡ false
      → (entries_key prefix board.slug == other) ≡ false
      → laws.sorted_set other (submit redis V entry_id now board input prefix (s, db)).0.0
        ≡ laws.sorted_set other s
  unfolding submit
  submit-keeps_key entry_id now board input prefix other s db apart apart' =
      let K : redis.State × Db V → Type 0 =
        λ x. laws.sorted_set other x.0 ≡ laws.sorted_set other s in
      lift-keeps K (s, db) (refuse_if (not board.realtime) (validation submit_not_realtime)) _ refl
        λ _.
          lift-keeps K (s, db)
            (refuse_if (is_nan input.score || is_infinite input.score) (validation score_infinite))
            _ refl
            λ _.
              lift-keeps K (s, db) (validate_slug input.entry_slug) _ refl
                λ _.
                  lift-keeps K (s, db) (validate_name input.entry_name) _ refl
                    λ _.
                      lift-keeps K (s, db)
                        (refuse_if (not (any (λ b. num_eq b.id board.id) db.boards))
                          (database foreign_key_violation))
                        _ refl
                        λ _.
                          ap (laws.sorted_set other) (
                            run-state redis.pipe redis_failed
                              (put (scores_key prefix board.slug) (entries_key prefix board.slug)
                                input.entry_slug input.entry_name input.score)
                              s _)
                          ∙ laws.sorted_set-other _ _ _ _ other _ s apart apart'

  Submissions-keeps_key :
      (board : Board V) (prefix other : String) (x y : redis.State × Db V)
      → Submissions redis V board prefix x y
      → (scores_key prefix board.slug == other) ≡ false
      → (entries_key prefix board.slug == other) ≡ false
      → laws.sorted_set other y.0 ≡ laws.sorted_set other x.0
  Submissions-keeps_key board prefix other x y idle apart apart' = refl
  Submissions-keeps_key board prefix other x y (submitted entry_id now input later) apart apart' =
      Submissions-keeps_key board prefix other _ y later apart apart'
      ∙ submit-keeps_key entry_id now board input prefix other x.0 x.1 apart apart'

  -- What `isolate` leaves for the rest of the snapshot of a board that is cleared.
  abbrev IsRenamed :
      String → String → redis.State → Db V → (redis.State × Db V) × Result Isolated → Type 0
  IsRenamed sk snap_id s db (x, ok isolated) =
      (isolated.read_sk ≡ snap_key sk snap_id)
      × (laws.sorted_set isolated.read_sk x.0 ≡ laws.sorted_set sk s)
      × (x.1 ≡ db)
  IsRenamed sk snap_id s db (x, err e) = Unit

  rename_keys-IsRenamed :
      (prefix slug snap_id : String) (s : redis.State) (db : Db V) {x : redis.State × Db V}
      {isolated : Isolated}
      → rename_keys redis V (scores_key prefix slug) (entries_key prefix slug) snap_id (s, db)
        ≡ (x, ok isolated)
      → IsRenamed (scores_key prefix slug) snap_id s db (x, ok isolated)
  rename_keys-IsRenamed prefix slug snap_id s db h =
      let sk = scores_key prefix slug in
      let ek = entries_key prefix slug in
      let (scores, _, h) = lift-eq-ok _ (answer redis_failed (redis.has_key sk s)) _ h in
      let (_, _, h) = lift-eq-ok _ (refuse_if (not scores) (validation no_scores)) _ h in
      let (entries, _, h) = lift-eq-ok _ (answer redis_failed (redis.has_key ek s)) _ h in
      let (s', renamed, h) =
        run-eq-ok redis.pipe rename_failed
          (renames entries sk (snap_key sk snap_id) ek (snap_key ek snap_id)) s db _ h in
      subst (IsRenamed sk snap_id s db) h
        (refl, renames-sorted_set redis laws entries prefix slug snap_id s s' renamed, refl)

  isolate-IsRenamed :
      (given : Board V) (prefix snap_id : String) (s : redis.State) (db : Db V)
      {x : redis.State × Db V} {isolated : Isolated}
      → given.clear_on_snapshot ≡ true
      → isolate redis V given prefix snap_id (s, db) ≡ (x, ok isolated)
      → IsRenamed (scores_key prefix given.slug) snap_id s db (x, ok isolated)
  unfolding isolate
  isolate-IsRenamed given prefix snap_id s db c h =
      rename_keys-IsRenamed prefix given.slug snap_id s db (rw c at h)

  -- A board that is cleared by its snapshots: when `isolate` returned, any submissions to the
  -- board followed, `store` returned a version, and Postgres made keys that are new and distinct,
  -- then each score that Redis held for the board before `isolate` belongs to an entry of the
  -- board, and the placements of the version are one for each of these scores and no others,
  -- numbered 1, 2, 3, .. by their scores in the direction of the stored board.
  pub snapshot-isolated :
      (sql : Sql V) (keys : Keys) (snap_id prefix : String) (given : Board V) (note : Option String)
      (metadata : Option V) (max_versions : Option ℤ) (max_entries : Option ℕ) (s : redis.State)
      (db : Db V) {x y z : redis.State × Db V} {isolated : Isolated} {r : VersionWithPlacements V}
      → given.clear_on_snapshot ≡ true
      → isolate redis V given prefix snap_id (s, db) ≡ (x, ok isolated)
      → Submissions redis V given prefix x y
      → store redis V sql keys given note metadata max_versions max_entries isolated y ≡ (z, ok r)
      → IsFresh y.1 keys
      → (board : Board V) × (lock_board y.1 given.id ≡ ok board)
        × (ss : List AccumulatedScore) × Scored y.1.entries board.id
            (laws.sorted_set (scores_key prefix given.slug) s)
            ss
        × IsRanked keys board.sort_direction ss z.1.placements
  snapshot-isolated sql keys snap_id prefix given _ _ _ _ s db {x} {y} {isolated} c isolated_ok
        others stored fresh =
      let (named, kept, _) = isolate-IsRenamed given prefix snap_id s db c isolated_ok in
      let sk = scores_key prefix given.slug in
      let apart = subst (λ k. (sk == k) ≡ false) (sym named) (snap_key-ne sk snap_id) in
      let apart' =
        subst (λ k. (entries_key prefix given.slug == k) ≡ false) (sym named)
          (entries_key-ne prefix given.slug snap_id) in
      let done = store-Stored redis sql keys given _ _ _ _ isolated y.0 y.1 stored in
      let (ss, scored, inserted) =
        insert_standings-eq-ok y.1.entries done.board.id keys.version_id keys.placement_ids 0
          done.standings y.1.placements done.inserted in
      let held : done.standings ≡ laws.sorted_set sk s =
        sym (laws.zrevrange-eq-some isolated.read_sk y.0 done.standings done.got)
        ∙ Submissions-keeps_key given prefix isolated.read_sk x y others apart apart'
        ∙ kept in
      (
        done.board,
        done.locked,
        ss,
        subst (λ l. Scored y.1.entries done.board.id l ss) held scored,
        subst (λ (d : Db V). IsRanked keys done.board.sort_direction ss d.placements) done.stored
            (derived-IsRanked y.1 keys done.board.sort_direction ss inserted fresh),
      )
