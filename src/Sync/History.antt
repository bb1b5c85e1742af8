-- ===== src/Sync/History.antt =====
-- What a synchronisation of crates/riley-leaderboards-core/src/sync/execute.rs does to the versions.
use mathlib.Core.Path.{subst}
use riley_leaderboards.Prelude.{String, ◌≡◌, ap}
use riley_leaderboards.Models.{
  DbError, Error, Result, ◌>>=◌, ok-injective, ok, err, Uuid, DateTime, Board, CreateBoard,
  UpdateBoard, Entry, CreateEntry, UpdateEntry,
}
use riley_leaderboards.Models.Json.{Json}
use riley_leaderboards.Db.{Db}
use riley_leaderboards.Repo.Boards
use riley_leaderboards.Repo.Boards.Insert.{insert_board, update_row}
use riley_leaderboards.Repo.Entries
use riley_leaderboards.Repo.Entries.{insert_entry, create, update, history}

-- The versions and the placements are those of the first tables.
pub record SameHistory {V : Type 0} (db db' : Db V) : Type 0 where
  pub versions : db'.versions ≡ db.versions
  pub placements : db'.placements ≡ db.placements

-- Where a repository call succeeds, the tables that it gives have the same history.
pub record Keeps {V A : Type 0} (db : Db V) (r : Result (A × Db V)) : Type 0 where
  pub kept : {a : A} {db' : Db V} → r ≡ ok (a, db') → SameHistory db db'

pub Keeps-ok :
    {V A : Type 0} (db db' : Db V) (a : A)
    → db'.versions ≡ db.versions
    → db'.placements ≡ db.placements
    → Keeps db (ok (a, db'))
Keeps-ok {V} {A} db db' a versions placements = record {
  kept = λ h.
      subst (SameHistory db) (ap (λ (t : A × Db V). t.1) (ok-injective h))
        (record { versions = versions; placements = placements });
}

Keeps-bind :
    {V A T : Type 0} (db : Db V) (m : Result T) (f : T → Result (A × Db V))
    → ((t : T) → Keeps db (f t))
    → Keeps db (m >>= f)
Keeps-bind db (ok t) f h = h t
Keeps-bind db (err e) f h = record { kept = λ q. absurd (cc) }

module _ {V : Type 0} where
  insert_board-Keeps :
      (f : DbError → Error) (db : Db V) (b : Board V) → Keeps db (insert_board f db b)
  unfolding insert_board
  insert_board-Keeps f db b = search (Keeps-bind, Keeps-ok)

  update_row-Keeps : (db : Db V) (id : Uuid) (b : Board V) → Keeps db (update_row db id b)
  unfolding update_row
  update_row-Keeps db id b = search (Keeps-bind, Keeps-ok)

  insert_entry-Keeps :
      (f : DbError → Error) (db : Db V) (e : Entry V) → Keeps db (insert_entry f db e)
  unfolding insert_entry
  insert_entry-Keeps f db e = search (Keeps-bind, Keeps-ok)

  pub create_entry-Keeps :
      (db : Db V) (id : Uuid) (now : DateTime) (board_id : Uuid) (input : CreateEntry V)
      → Keeps db (Entries.create db id now board_id input)
  unfolding Entries.create
  create_entry-Keeps db id now board_id input = search (Keeps-bind, insert_entry-Keeps)

  pub update_entry-Keeps :
      (db : Db V) (now : DateTime) (board_id : Uuid) (slug : String) (input : UpdateEntry V)
      → Keeps db (Entries.update db now board_id slug input)
  unfolding Entries.update
  update_entry-Keeps db now board_id slug input = search (Keeps-bind, Keeps-ok)

module _ (json : Json) where
  pub create_board-Keeps :
      (db : Db json.Value) (id : Uuid) (now : DateTime) (input : CreateBoard json.Value)
      → Keeps db (Boards.create json db id now input)
  unfolding Boards.create
  create_board-Keeps db id now input = search (Keeps-bind, insert_board-Keeps) depth 14

  pub update_board-Keeps :
      (db : Db json.Value) (now : DateTime) (slug : String) (input : UpdateBoard json.Value)
      → Keeps db (Boards.update json db now slug input)
  unfolding Boards.update
  update_board-Keeps db now slug input = search (Keeps-bind, update_row-Keeps) depth 14
