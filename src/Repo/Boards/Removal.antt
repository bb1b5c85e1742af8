-- ===== src/Repo/Boards/Removal.antt =====
-- What `delete` of crates/riley-leaderboards-core/src/repo/boards.rs removes: the foreign keys of the
-- migrations hold again after its cascade.
use riley_leaderboards.Prelude.{
  ◌≡◌, ◌⊎◌, Bool, true, ◌&&◌, Option, none, some, num_eq, if◌then◌else◌, any, option_list, All,
}
use riley_leaderboards.Models.{Uuid, Placement}
use riley_leaderboards.Models.Json.{Json}
use riley_leaderboards.Db.{Db, ReferenceRow}
use riley_leaderboards.Repo.Boards

module _ {V : Type 0} where
  -- A row with the key is in the table.
  abbrev pub HasBoard : Db V → Uuid → Type 0
  HasBoard db id = any (λ b. num_eq b.id id) db.boards ≡ true

  abbrev pub HasEntry : Db V → Uuid → Type 0
  HasEntry db id = any (λ e. num_eq e.id id) db.entries ≡ true

  abbrev pub HasVersion : Db V → Uuid → Type 0
  HasVersion db id = any (λ v. num_eq v.id id) db.versions ≡ true

  abbrev pub HasPinned : Db V → Option Uuid → Type 0
  HasPinned db none = Unit
  HasPinned db (some id) = HasVersion db id

  -- Every foreign key to a board, an entry or a version finds its row.
  pub record IsLinked (db : Db V) : Type 0 where
    pub entries : All (λ e. HasBoard db e.board_id) db.entries
    pub versions : All (λ v. HasBoard db v.board_id) db.versions
    pub placements : All (λ p. HasVersion db p.version_id × HasEntry db p.entry_id) db.placements
    pub board_references :
        All (λ r. HasBoard db r.board_id × HasPinned db r.pinned_version_id) db.board_references
    pub accumulated_scores :
        All (λ s. HasBoard db s.board_id × HasEntry db s.entry_id) db.accumulated_scores
    pub collection_boards : All (λ c. HasBoard db c.board_id) db.collection_boards

module _ {V : Type 0} (db : Db V) (id : Uuid) where
  abbrev version_gone : Uuid → Bool
  version_gone i = any (λ v. num_eq v.id i && num_eq v.board_id id) db.versions

  abbrev unpinned : ReferenceRow → ReferenceRow
  unpinned r =
      if any version_gone (option_list r.pinned_version_id)
      then record r { pinned_version_id = none }
      else r

  -- A placement that is gone is of a version or of an entry of the board.
  abbrev pub IsOfBoard : Placement V → Type 0
  IsOfBoard p =
      (any (λ v. num_eq v.id p.version_id && num_eq v.board_id id) db.versions ≡ true)
      ⊎ (any (λ e. num_eq e.id p.entry_id && num_eq e.board_id id) db.entries ≡ true)
