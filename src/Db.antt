-- ===== src/Db.antt =====
-- The Postgres tables of crates/riley-leaderboards-core/migrations/001 to 007: a table is the list
-- of its rows, oldest first. Keys made by `uuidv7()` and the time `now()` are arguments of the
-- operations. An operation that fails gives no new state: its transaction is rolled back.
use riley_leaderboards.Prelude.{String, Option, List, ℤ}
use riley_leaderboards.Models.{
  Uuid, DateTime, Board, Entry, Version, Placement, AccumulatedScore, Collection,
}

pub record CollectionBoard : Type 0 where
  pub collection_id : Uuid
  pub board_id : Uuid
  pub display_order : ℤ

-- A row of `board_references`.
pub record ReferenceRow : Type 0 where
  pub id : Uuid
  pub board_id : Uuid
  pub pinned_version_id : Option Uuid
  pub uri : String
  pub ref_type : String
  pub label : Option String
  pub created_at : DateTime

module _ (V : Type 0) where
  pub record Db : Type 0 where
    pub boards : List (Board V)
    pub entries : List (Entry V)
    pub versions : List (Version V)
    pub placements : List (Placement V)
    pub board_references : List ReferenceRow
    pub accumulated_scores : List AccumulatedScore
    pub collections : List (Collection V)
    pub collection_boards : List CollectionBoard
