-- ===== src/Models/Versions.antt =====
-- models.rs: versions, placements, differences and accumulated scores. A stored version number is
-- positive (`CHECK (version_number > 0)`), so it is a natural number.
use riley_leaderboards.Prelude.{ℕ, String, Option, List, ℤ, F64}
use riley_leaderboards.Models.Boards.{Uuid, DateTime}

module _ (V : Type 0) where
  pub record Version : Type 0 where
    pub id : Uuid
    pub board_id : Uuid
    pub version_number : ℕ
    pub note : Option String
    pub metadata : Option V
    pub created_at : DateTime

  pub record Placement : Type 0 where
    pub id : Uuid
    pub version_id : Uuid
    pub entry_id : Uuid
    pub position : Option ℤ
    pub score : Option F64
    pub tier : Option String
    pub metadata : Option V

  pub record CreatePlacement : Type 0 where
    pub entry_slug : String
    pub position : Option ℤ
    pub score : Option F64
    pub tier : Option String
    pub metadata : Option V

  pub record CreateVersion : Type 0 where
    pub note : Option String
    pub metadata : Option V
    pub placements : List CreatePlacement

  pub record PlacementWithEntry : Type 0 where
    pub id : Uuid
    pub version_id : Uuid
    pub entry_id : Uuid
    pub position : Option ℤ
    pub score : Option F64
    pub tier : Option String
    pub metadata : Option V
    pub entry_slug : String
    pub entry_name : String

  pub record VersionWithPlacements : Type 0 where
    pub version : Version
    pub placements : List PlacementWithEntry

pub record DiffEntry : Type 0 where
  pub entry_slug : String
  pub entry_name : String
  pub position : Option ℤ
  pub score : Option F64
  pub tier : Option String

pub record DiffMovedEntry : Type 0 where
  pub entry_slug : String
  pub entry_name : String
  pub from_position : Option ℤ
  pub to_position : Option ℤ
  pub from_score : Option F64
  pub to_score : Option F64
  pub from_tier : Option String
  pub to_tier : Option String

pub record VersionDiff : Type 0 where
  pub from_version : ℤ
  pub to_version : ℤ
  pub added : List DiffEntry
  pub removed : List DiffEntry
  pub moved : List DiffMovedEntry
  pub unchanged : List DiffEntry

pub record AccumulatedScore : Type 0 where
  pub id : Uuid
  pub board_id : Uuid
  pub entry_id : Uuid
  pub score : F64
  pub submitted_at : DateTime

pub record SubmitScore : Type 0 where
  pub entry_slug : String
  pub entry_name : String
  pub score : F64
