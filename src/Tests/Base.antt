-- ===== src/Tests/Base.antt =====
-- The JSON documents, the collation and the rows that the tests use.
use Prim.Native.String.{compare}
use text.Mathlib.Text.{is_lt}
use riley_leaderboards.Prelude.{
  ℕ, ◌+◌, String, false, Option, none, some, List, [], ◌∷◌, ◌==◌, if◌then◌else◌, and_then, ℤ, F64,
  pos,
}
use riley_leaderboards.Models.{Result, ok, err, Uuid, Board, Entry, CreatePlacement, CreateVersion}
use riley_leaderboards.Models.Json.{Json}
use riley_leaderboards.Db.{Db}
use riley_leaderboards.Repo.Versions.{Keys}
use riley_leaderboards.Repo.Versions.Placements.{Sql}

-- Documents: lists and objects are chains that end in `nil`.
pub data Doc : Type 0 where
  str : String → Doc
  num : ℤ → Doc
  nil : Doc
  cell : Doc → Doc → Doc
  field : String → Doc → Doc → Doc

abbrev pub get_field : Doc → String → Option Doc
get_field (field k v rest) key = if k == key then some v else get_field rest key
get_field _ key = none

abbrev pub items_of : Doc → Option (List Doc)
items_of nil = some []
items_of (cell v rest) = and_then (items_of rest) λ vs. some (v ∷ vs)
items_of _ = none

abbrev pub text_of : Doc → Option String
text_of (str s) = some s
text_of _ = none

abbrev pub number_of : Doc → Option ℤ
number_of (num i) = some i
number_of _ = none

abbrev pub docs : Json
docs = record {
  Value = Doc;
  get = get_field;
  as_array = items_of;
  as_str = text_of;
  as_i64 = number_of;
}

-- Tiers that are no array are refused; the tests store no tier that the configuration lists.
abbrev tiers_of : Option Doc → Option (Option ℤ)
tiers_of none = some none
tiers_of (some tiers) = and_then (items_of tiers) λ _. some none

abbrev pub sql : Sql Doc
sql = record {
  tier_ord = λ tc key. tiers_of (get_field tc "tiers");
  name_lt = λ a b. is_lt (compare a b);
}

abbrev pub tier : String → ℕ → Doc
tier key n = field "key" (str key) (field "position" (num (pos n)) nil)

abbrev pub two_tiers : Doc
two_tiers = field "tiers" (cell (tier "s" 1) (cell (tier "a" 2) nil)) nil

abbrev pub empty : Db Doc
empty = record {
  boards = [];
  entries = [];
  versions = [];
  placements = [];
  board_references = [];
  accumulated_scores = [];
  collections = [];
  collection_boards = [];
}

-- The state after an operation; a refused one leaves it as it was.
abbrev pub state : {A : Type 0} → Db Doc → Result (A × Db Doc) → Db Doc
state db (ok (a, db')) = db'
state db (err e) = db

abbrev pub answer : {A : Type 0} → A → Result (A × Db Doc) → A
answer d (ok (a, db')) = a
answer d (err e) = d

abbrev pub chess : Board Doc
chess = record {
  id = 1;
  slug = "chess";
  name = "Chess";
  board_type = "scored";
  sort_direction = "desc";
  tier_config = none;
  metadata = none;
  accumulative = false;
  realtime = false;
  clear_on_snapshot = false;
  created_at = 100;
  updated_at = 100;
}

abbrev pub player : Uuid → String → Entry Doc
player id slug = record {
  id = id;
  board_id = 1;
  slug = slug;
  name = slug;
  metadata = none;
  created_at = 101;
  updated_at = 101;
}

abbrev pub club : Db Doc
club = record empty { boards = chess ∷ []; entries = player 11 "ann" ∷ player 12 "bob" ∷ [] }

-- The doubles 1.0, 2.0 and 3.0.
abbrev pub one : F64
one = 4607182418800017408

abbrev pub two : F64
two = 4611686018427387904

abbrev pub three : F64
three = 4613937818241073152

abbrev pub scored : String → F64 → CreatePlacement Doc
scored slug score = record {
  entry_slug = slug;
  position = none;
  score = some score;
  tier = none;
  metadata = none;
}

abbrev pub round : F64 → F64 → CreateVersion Doc
round a b = record {
  note = none;
  metadata = none;
  placements = scored "ann" a ∷ scored "bob" b ∷ [];
}

abbrev pub keys_from : ℕ → Keys
keys_from n = record { version_id = n; placement_ids = λ i. n + 1 + i; now = n }
