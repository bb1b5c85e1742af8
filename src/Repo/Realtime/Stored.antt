-- ===== src/Repo/Realtime/Stored.antt =====
-- What `snapshot` of crates/riley-leaderboards-core/src/repo/realtime.rs does when it returns.
use riley_leaderboards.Prelude.{
  ℕ, String, ◌≡◌, refl, sym, ap, Option, none, some, List, [], ◌∷◌, length, is_empty, ℤ, F64,
}
use riley_leaderboards.Models.{
  Error, Result, refuse_if, ok-injective, no_scores, redis_failed, validation, ok, err, Board,
  Placement, VersionWithPlacements,
}
use riley_leaderboards.Db.{Db}
use riley_leaderboards.Models.Steps.{Step, after, lift-eq-ok}
use riley_leaderboards.Repo.Realtime.Server.{Redis, answer, answer-eq-ok, del}
use riley_leaderboards.Repo.Realtime.Standings.{insert_standings}
use riley_leaderboards.Repo.Realtime.Snapshot.{Isolated, delete_snap_keys, cleaned, store}
use riley_leaderboards.Repo.Scores.{check_entry_limit}
use riley_leaderboards.Repo.Versions.{
  check_version_limit, next_number, check_version, add_version, lock_board, Keys, new_version,
}
use riley_leaderboards.Repo.Versions.Placements.{Sql}
use riley_leaderboards.Repo.Versions.Positions.{derive_scored_positions}

module _ (redis : Redis) {V : Type 0} where
  refused :
      {A : Type 0} {s : redis.State × Db V} {x : redis.State × Db V} {e : Error} {a : A}
      → ◌≡◌ {A = (redis.State × Db V) × Result A} (s, err e) (x, ok a)
      → ⊥
  refused {A} {e} {a} h =
      let same : ◌≡◌ {A = Result A} (err e) (ok a) =
        ap (λ (y : (redis.State × Db V) × Result A). y.1) h in
      cc

  cleaned-eq-ok :
      {B : Type 0} (keys : Option (String × String)) (check : Result (Unit {0})) (s : redis.State)
      (db : Db V) (rest : Unit {0} → Step (redis.State × Db V) B) {x : redis.State × Db V} {b : B}
      → after (cleaned redis V keys check (s, db)) rest ≡ (x, ok b)
      → (check ≡ ok tt) × (rest tt (s, db) ≡ (x, ok b))
  cleaned-eq-ok keys (ok tt) s db rest h = (refl, h)
  cleaned-eq-ok none (err e) s db rest h = absurd (refused h)
  cleaned-eq-ok (some (a, b)) (err e) s db rest h = absurd (refused h)

  deleted-eq-ok :
      {B : Type 0} (keys : Option (String × String)) (s : redis.State) (db : Db V)
      (rest : Unit {0} → Step (redis.State × Db V) B) {x : redis.State × Db V} {b : B}
      → after (delete_snap_keys redis V keys (s, db)) rest ≡ (x, ok b)
      → (s' : redis.State) × (rest tt (s', db) ≡ (x, ok b))
  deleted-eq-ok none s db rest h = (s, h)
  deleted-eq-ok (some (a, b)) s db rest h = ((redis.pipe (del a ∷ del b ∷ []) s).0, h)

  -- What `store` did when it returned a version.
  pub record Stored (db : Db V) (keys : Keys) (given : Board V) (note : Option String)
      (metadata : Option V) (isolated : Isolated) (s : redis.State) (r : VersionWithPlacements V)
      (db' : Db V) : Type 0 where
    pub board : Board V
    pub locked : lock_board db given.id ≡ ok board
    pub standings : List (String × F64)
    pub got : redis.zrevrange isolated.read_sk s ≡ some standings
    pub number : ℕ
    pub next : next_number db board.id ≡ ok number
    pub table : List (Placement V)
    pub inserted :
        insert_standings db.entries board.id keys.version_id keys.placement_ids 0 standings
          db.placements
        ≡ ok table
    pub version : r.version ≡ new_version keys board.id number note metadata
    pub stored :
        record (add_version db (new_version keys board.id number note metadata)) {
          placements = derive_scored_positions keys.version_id board.sort_direction table;
        }
        ≡ db'

  pub store-Stored :
      (sql : Sql V) (keys : Keys) (given : Board V) (note : Option String) (metadata : Option V)
      (max_versions : Option ℤ) (max_entries : Option ℕ) (isolated : Isolated) (s : redis.State)
      (db : Db V) {x : redis.State × Db V} {r : VersionWithPlacements V}
      → store redis V sql keys given note metadata max_versions max_entries isolated (s, db)
        ≡ (x, ok r)
      → Stored db keys given note metadata isolated s r x.1
  unfolding store
  store-Stored sql keys given note metadata max_versions max_entries isolated s db h =
      let (board, locked, h) = lift-eq-ok _ (lock_board db given.id) _ h in
      let (_, h) =
        cleaned-eq-ok isolated.snap_keys (check_version_limit db board.id max_versions) s db _ h in
      let (standings, got, h) =
        lift-eq-ok _ (answer redis_failed (redis.zrevrange isolated.read_sk s)) _ h in
      let (_, h) =
        cleaned-eq-ok isolated.snap_keys (refuse_if (is_empty standings) (validation no_scores)) s
          db _ h in
      let (_, h) =
        cleaned-eq-ok isolated.snap_keys (check_entry_limit (length standings) max_entries) s db _
          h in
      let (number, next, h) = lift-eq-ok _ (next_number db board.id) _ h in
      let version = new_version keys board.id number note metadata in
      let (_, _, h) = lift-eq-ok _ (check_version db version) _ h in
      let (table, inserted, h) =
        lift-eq-ok _
          (insert_standings db.entries board.id version.id keys.placement_ids 0 standings
            db.placements)
          _ h in
      let (_, h) = deleted-eq-ok isolated.snap_keys s _ _ h in
      record {
        board = board;
        locked = locked;
        standings = standings;
        got = answer-eq-ok _ _ got;
        number = number;
        next = next;
        table = table;
        inserted = inserted;
        version = sym (
            ap (λ (r : VersionWithPlacements V). r.version)
              (ok-injective
                (ap (λ (y : (redis.State × Db V) × Result (VersionWithPlacements V)). y.1) h)));
        stored = ap (λ (y : (redis.State × Db V) × Result (VersionWithPlacements V)). y.0.1) h;
      }
