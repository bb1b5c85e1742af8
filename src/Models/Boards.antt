-- ===== src/Models/Boards.antt =====
-- models.rs: PATCH values, boards and entries.
use riley_leaderboards.Prelude.{ℕ, String, Bool, Option, none, some, ℤ, F64}

abbrev pub Uuid : Type 0
Uuid = ℕ

abbrev pub DateTime : Type 0
DateTime = ℕ

pub data Nullable (A : Type 0) : Type 0 where
  absent null : Nullable A
  value : A → Nullable A

-- `match &input.field { Absent => old, Null => None, Value(v) => Some(v) }`
unfoldable pub resolve : {A : Type 0} → Nullable A → Option A → Option A
resolve absent old = old
resolve null old = none
resolve (value v) old = some v

module _ (V : Type 0) where
  pub record Board : Type 0 where
    pub id : Uuid
    pub slug : String
    pub name : String
    pub board_type : String
    pub sort_direction : String
    pub tier_config : Option V
    pub metadata : Option V
    pub accumulative : Bool
    pub realtime : Bool
    pub clear_on_snapshot : Bool
    pub created_at : DateTime
    pub updated_at : DateTime

  pub record CreateBoard : Type 0 where
    pub slug : String
    pub name : String
    pub board_type : String
    pub sort_direction : String
    pub tier_config : Option V
    pub metadata : Option V
    pub accumulative : Bool
    pub realtime : Bool
    pub clear_on_snapshot : Bool

  pub record UpdateBoard : Type 0 where
    pub name : Option String
    pub sort_direction : Option String
    pub tier_config : Nullable V
    pub metadata : Nullable V
    pub realtime : Option Bool
    pub clear_on_snapshot : Option Bool

  pub record BoardSummary : Type 0 where
    pub board : Board
    pub latest_version : Option ℕ
    pub entry_count : ℕ

  pub record Entry : Type 0 where
    pub id : Uuid
    pub board_id : Uuid
    pub slug : String
    pub name : String
    pub metadata : Option V
    pub created_at : DateTime
    pub updated_at : DateTime

  pub record CreateEntry : Type 0 where
    pub slug : String
    pub name : String
    pub metadata : Option V

  pub record UpdateEntry : Type 0 where
    pub name : Option String
    pub metadata : Nullable V

  pub record EntryHistoryItem : Type 0 where
    pub version_number : ℕ
    pub position : Option ℤ
    pub score : Option F64
    pub tier : Option String
    pub metadata : Option V
    pub created_at : DateTime
