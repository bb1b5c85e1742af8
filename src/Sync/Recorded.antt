-- ===== src/Sync/Recorded.antt =====
-- What a synchronisation of crates/riley-leaderboards-core/src/sync/execute.rs reports of the
-- versions, and the steps that keep them.
use riley_leaderboards.Prelude.{
  ℕ, ◌<◌, String, ◌≡◌, refl, ◌∙◌, ◌≢◌, Bool, true, false, [], ◌∷◌, ◌++◌, if◌then◌else◌, All,
}
use riley_leaderboards.Models.{Result, ok, err, Version}
use riley_leaderboards.Models.Steps.{Step, after}
use riley_leaderboards.Db.{Db}
use riley_leaderboards.Sync.{
  SyncAction, BoardSyncResult, created, updated, no_change, skipped, failed,
}
use riley_leaderboards.Sync.Execute.{settle, unused}
use riley_leaderboards.Sync.History.{SameHistory, Keeps, Keeps-ok}

module _ {V : Type 0} where
  -- One version more, with a number above those of the other versions of its board.
  abbrev pub Appended : Db V → Db V → ℕ → Type 0
  Appended db db' number =
      (v : Version V) × (db'.versions ≡ db.versions ++ v ∷ [])
      × (v.version_number ≡ number)
      × All (λ w. w.board_id ≡ v.board_id → w.version_number < number) db.versions

  abbrev pub ByAction : Db V → Db V → SyncAction → Type 0
  ByAction db db' (created n) = Appended db db' n × (n ≡ 1)
  ByAction db db' (updated n) = Appended db db' n × (n ≢ 1)
  ByAction db db' no_change = SameHistory db db'
  ByAction db db' skipped = SameHistory db db'
  ByAction db db' (failed e) = SameHistory db db'

  abbrev pub Recorded : String → Db V → Db V × Result BoardSyncResult → Type 0
  Recorded slug db (db', ok r) = (r.slug ≡ slug) × ByAction db db' r.action
  Recorded slug db (db', err e) = SameHistory db db'

  pub same : (db : Db V) → SameHistory db db
  same db = record { versions = refl; placements = refl }

  pub then_same :
      {db₀ db db' : Db V} → SameHistory db₀ db → SameHistory db db' → SameHistory db₀ db'
  then_same h k = record {
    versions = k.versions ∙ h.versions;
    placements = k.placements ∙ h.placements;
  }

  pub settle-Same :
      {A : Type 0} (db₀ db : Db V) (r : Result (A × Db V))
      → SameHistory db₀ db
      → Keeps db r
      → SameHistory db₀ (settle db r).0
  settle-Same db₀ db (ok (a, db')) h k = then_same h (k.kept refl)
  settle-Same db₀ db (err e) h k = h

  pub unused-Keeps :
      {A : Type 0} (db : Db V) (r : Result (A × Db V)) → Keeps db r → Keeps db (unused r)
  unused-Keeps db (ok (a, db')) k =
      let s = k.kept refl in Keeps-ok db db' tt s.versions s.placements
  unused-Keeps db (err e) k = record { kept = λ q. absurd (cc) }

  pub after-Same :
      {A B : Type 0} (db : Db V) (x : Db V × Result A) (rest : A → Step (Db V) B)
      → SameHistory db x.0
      → ((a : A) (s : Db V) → SameHistory db s → SameHistory db (rest a s).0)
      → SameHistory db (after x rest).0
  after-Same db (s, ok a) rest h f = f a s h
  after-Same db (s, err e) rest h f = h

  pub if-Same :
      {B : Type 0} (b : Bool) (f g : Step (Db V) B) (db₀ db : Db V)
      → SameHistory db₀ (f db).0
      → SameHistory db₀ (g db).0
      → SameHistory db₀ ((if b then f else g) db).0
  if-Same true f g db₀ db h k = h
  if-Same false f g db₀ db h k = k

  pub if-Recorded :
      (slug : String) (b : Bool) (f g : Step (Db V) BoardSyncResult) (db₀ db : Db V)
      → Recorded slug db₀ (f db)
      → Recorded slug db₀ (g db)
      → Recorded slug db₀ ((if b then f else g) db)
  if-Recorded slug true f g db₀ db h k = h
  if-Recorded slug false f g db₀ db h k = k

  -- A chain whose first step, which may fail, keeps the history.
  pub after-Recorded :
      {A : Type 0} (slug : String) (db : Db V) (x : Db V × Result A)
      (rest : A → Step (Db V) BoardSyncResult)
      → SameHistory db x.0
      → ((a : A) (s : Db V) → SameHistory db s → Recorded slug db (rest a s))
      → Recorded slug db (after x rest)
  after-Recorded slug db (s, ok a) rest h f = f a s h
  after-Recorded slug db (s, err e) rest h f = h
