-- ===== src/Models/Collections.antt =====
-- models.rs: references and collections.
use riley_leaderboards.Prelude.{ℕ, String, Option, ℤ}
use riley_leaderboards.Models.Boards.{Uuid, DateTime, Nullable}

-- A row of `board_references` as it is returned: the version number comes from the join.
pub record BoardReference : Type 0 where
  pub id : Uuid
  pub board_id : Uuid
  pub pinned_version_id : Option Uuid
  pub pinned_version_number : Option ℕ
  pub uri : String
  pub ref_type : String
  pub label : Option String
  pub created_at : DateTime

pub record CreateReference : Type 0 where
  pub pinned_version_number : Option ℤ
  pub uri : String
  pub ref_type : String
  pub label : Option String

module _ (V : Type 0) where
  pub record Collection : Type 0 where
    pub id : Uuid
    pub slug : String
    pub name : String
    pub metadata : Option V
    pub created_at : DateTime
    pub updated_at : DateTime

  pub record CreateCollection : Type 0 where
    pub slug : String
    pub name : String
    pub metadata : Option V

  pub record UpdateCollection : Type 0 where
    pub name : Option String
    pub metadata : Nullable V

pub record CollectionBoardEntry : Type 0 where
  pub slug : String
  pub name : String
  pub board_type : String
  pub display_order : ℤ
  pub latest_version : Option ℕ

pub record AddBoardToCollection : Type 0 where
  pub board_slug : String
  pub display_order : ℤ
