-- ===== src/Repo/Realtime/Server.antt =====
-- The Redis server of crates/riley-leaderboards-core/src/repo/realtime.rs. It is not code of the
-- repository: its state and its commands are the fields of `Redis`, and what the code relies on is
-- `RedisLaws`. A step keeps the state that it reached also when it fails.
use riley_leaderboards.Models.Steps.{Step, after}
use riley_leaderboards.Prelude.{
  String, ◌≡◌, refl, ap, Bool, true, false, Option, none, some, List, [], ◌∷◌, map, ◌==◌, In, F64,
}
use riley_leaderboards.Models.{Message, Result, redis_failed, service_unavailable, ok, err}

-- The commands of the pipelines.
pub data Command : Type 0 where
  zadd : String → String → F64 → Command
  hset : String → String → String → Command
  rename : String → String → Command
  del : String → Command

-- `pipe` is an atomic pipeline: the state that it leaves, and whether it answered without an error.
-- `has_key` is EXISTS; the others read a sorted set and a hash, or fail.
pub record Redis : Type 1 where
  pub State : Type 0
  pub pipe : List Command → State → State × Bool
  pub has_key : String → State → Option Bool
  pub zrange : String → State → Option (List (String × F64))
  pub zrevrange : String → State → Option (List (String × F64))
  pub hget : String → List String → State → Option (List (Option String))

abbrev pub put : String → String → String → String → F64 → List Command
put key hash member name score = zadd key member score ∷ hset hash member name ∷ []

-- What the code relies on: `sorted_set key s` is what a key holds, in the order of ZREVRANGE.
pub record RedisLaws (redis : Redis) : Type 0 where
  pub sorted_set : String → redis.State → List (String × F64)
  pub zrevrange-eq-some :
      (key : String) (s : redis.State) (rows : List (String × F64))
      → redis.zrevrange key s ≡ some rows
      → sorted_set key s ≡ rows
  pub In-zrange :
      (key : String) (s : redis.State) (rows : List (String × F64)) (row : String × F64)
      → redis.zrange key s ≡ some rows
      → In row (sorted_set key s)
      → In row rows
  -- A key that is renamed holds what it held under its new name.
  pub sorted_set-rename :
      (a b : String) (s s' : redis.State)
      → redis.pipe (rename a b ∷ []) s ≡ (s', true)
      → sorted_set b s' ≡ sorted_set a s
  pub sorted_set-renames :
      (a b c d : String) (s s' : redis.State)
      → redis.pipe (rename a b ∷ rename c d ∷ []) s ≡ (s', true)
      → (c == b) ≡ false
      → (d == b) ≡ false
      → sorted_set b s' ≡ sorted_set a s
  -- A score is stored under its key, and the other keys stay as they are.
  pub In-sorted_set :
      (key hash member name : String) (score : F64) (s s' : redis.State)
      → redis.pipe (put key hash member name score) s ≡ (s', true)
      → In (member, score) (sorted_set key s')
  pub sorted_set-other :
      (key hash member name other : String) (score : F64) (s : redis.State)
      → (key == other) ≡ false
      → (hash == other) ≡ false
      → sorted_set other (redis.pipe (put key hash member name score) s).0 ≡ sorted_set other s
  -- Fields are read one by one, and the field that was set has its value.
  pub hget-hset :
      (key hash member name : String) (score : F64) (s s' : redis.State) (members : List String)
      (names : List (Option String))
      → redis.pipe (put key hash member name score) s ≡ (s', true)
      → In member members
      → redis.hget hash members s' ≡ some names
      → (field : String → Option String) × (names ≡ map field members) × (field member ≡ some name)

-- An error of Redis is a `ServiceUnavailable` with its text.
abbrev pub answer : {A : Type 0} → Message → Option A → Result A
answer m none = err (service_unavailable m)
answer m (some a) = ok a

pub answer-eq-ok :
    {A : Type 0} (m : Message) (o : Option A) {a : A} → answer m o ≡ ok a → o ≡ some a
answer-eq-ok m none h = cc
answer-eq-ok m (some b) h = cc

-- Steps on the state `R` of Redis beside the tables `D`.
module _ {R D : Type 0} where
  abbrev pub read : {A : Type 0} → (R → Option A) → Step (R × D) A
  read f (s, db) = ((s, db), answer redis_failed (f s))

  abbrev ran : Message → D → R × Bool → (R × D) × Result (Unit {0})
  ran m db (s', true) = ((s', db), ok tt)
  ran m db (s', false) = ((s', db), err (service_unavailable m))

  abbrev pub run : (List Command → R → R × Bool) → Message → List Command → Step (R × D) (Unit {0})
  run pipe m commands (s, db) = ran m db (pipe commands s)

  abbrev pub tables : Step (R × D) D
  tables (s, db) = ((s, db), ok db)

  abbrev pub commit : D → Step (R × D) (Unit {0})
  commit db' (s, db) = ((s, db'), ok tt)

  ran-eq-ok :
      {B : Type 0} (m : Message) (db : D) (o : R × Bool) (rest : Unit {0} → Step (R × D) B)
      {x : R × D} {b : B}
      → after (ran m db o) rest ≡ (x, ok b)
      → (s' : R) × (o ≡ (s', true)) × (rest tt (s', db) ≡ (x, ok b))
  ran-eq-ok m db (s', true) rest h = (s', refl, h)
  ran-eq-ok {B} m db (s', false) rest {x} {b} h =
      let same : ◌≡◌ {A = Result B} (err (service_unavailable m)) (ok b) =
        ap (λ (y : (R × D) × Result B). y.1) h in
      cc

  pub run-eq-ok :
      {B : Type 0} (pipe : List Command → R → R × Bool) (m : Message) (commands : List Command)
      (s : R) (db : D) (rest : Unit {0} → Step (R × D) B) {x : R × D} {b : B}
      → after (run pipe m commands (s, db)) rest ≡ (x, ok b)
      → (s' : R) × (pipe commands s ≡ (s', true)) × (rest tt (s', db) ≡ (x, ok b))
  run-eq-ok pipe m commands s db rest h = ran-eq-ok m db (pipe commands s) rest h

  ran_last-eq-ok :
      (m : Message) (db : D) (o : R × Bool) {x : R × D} → ran m db o ≡ (x, ok tt) → o ≡ (x.0, true)
  ran_last-eq-ok m db (s', true) h = ap (λ (y : (R × D) × Result (Unit {0})). (y.0.0, true)) h
  ran_last-eq-ok m db (s', false) {x} h =
      let same : ◌≡◌ {A = Result (Unit {0})} (err (service_unavailable m)) (ok tt) =
        ap (λ (y : (R × D) × Result (Unit {0})). y.1) h in
      cc

  pub run_last-eq-ok :
      (pipe : List Command → R → R × Bool) (m : Message) (commands : List Command) (s : R) (db : D)
      {x : R × D}
      → run pipe m commands (s, db) ≡ (x, ok tt)
      → pipe commands s ≡ (x.0, true)
  run_last-eq-ok pipe m commands s db h = ran_last-eq-ok m db (pipe commands s) h

  -- The state of Redis that a pipeline leaves, whether it succeeds or not.
  ran-state : (m : Message) (db : D) (o : R × Bool) → (ran m db o).0.0 ≡ o.0
  ran-state m db (s', true) = refl
  ran-state m db (s', false) = refl

  pub run-state :
      (pipe : List Command → R → R × Bool) (m : Message) (commands : List Command) (s : R) (db : D)
      → (run pipe m commands (s, db)).0.0 ≡ (pipe commands s).0
  run-state pipe m commands s db = ran-state m db (pipe commands s)
