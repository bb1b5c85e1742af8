-- ===== src/Models/Json.antt =====
-- `serde_json::Value`, which is not part of this repository: the type and the accessors that the
-- code calls on it.
use riley_leaderboards.Prelude.{String, Option, List, ℤ}

pub record Json : Type 1 where
  pub Value : Type 0
  pub get : Value → String → Option Value
  pub as_array : Value → Option (List Value)
  pub as_str : Value → Option String
  pub as_i64 : Value → Option ℤ
