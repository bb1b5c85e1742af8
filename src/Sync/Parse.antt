-- ===== src/Sync/Parse.antt =====
-- crates/riley-leaderboards-core/src/sync/parse.rs: boards as the files of a directory describe them.
-- The file system and the TOML parser are arguments: what reading and parsing a file gives.
use riley_leaderboards.Prelude.{
  String, Bool, true, false, Option, none, some, List, [], ◌∷◌, ◌++◌, if◌then◌else◌, ℤ, F64,
}
use riley_leaderboards.Models.{
  Result, ◌>>=◌, ◌>>◌, ok_or, bad_directory, unreadable, unparsable, validation, ok, err,
}
use riley_leaderboards.Repo.{validate_slug}

-- `toml::Value`; a date is its text.
mutual
  pub data TomlValue : Type 0 where
    string datetime : String → TomlValue
    integer : ℤ → TomlValue
    float : F64 → TomlValue
    boolean : Bool → TomlValue
    array : TomlValues → TomlValue
    table : TomlTable → TomlValue

  pub data TomlValues : Type 0 where
    empty : TomlValues
    item : TomlValue → TomlValues → TomlValues

  pub data TomlTable : Type 0 where
    blank : TomlTable
    entry : String → TomlValue → TomlTable → TomlTable

-- The constructors of `serde_json::Value` that the code calls, and its `==`.
pub record JsonValues (V : Type 0) : Type 0 where
  pub string : String → V
  pub integer : ℤ → V
  pub float : F64 → V
  pub bool : Bool → V
  pub array : List V → V
  pub object : List (String × V) → V
  pub eq : V → V → Bool

module _ {V : Type 0} (values : JsonValues V) where
  unfoldable mutual
    pub toml_to_json : TomlValue → V
    toml_to_json (string s) = values.string s
    toml_to_json (integer i) = values.integer i
    toml_to_json (float f) = values.float f
    toml_to_json (boolean b) = values.bool b
    toml_to_json (datetime d) = values.string d
    toml_to_json (array items) = values.array (toml_items items)
    toml_to_json (table rows) = values.object (toml_rows rows)

    pub toml_items : TomlValues → List V
    toml_items empty = []
    toml_items (item t ts) = toml_to_json t ∷ toml_items ts

    pub toml_rows : TomlTable → List (String × V)
    toml_rows blank = []
    toml_rows (entry k t rows) = (k, toml_to_json t) ∷ toml_rows rows

  abbrev pub json_of : Option TomlValue → Option V
  json_of none = none
  json_of (some t) = some (toml_to_json t)

pub record TierToml : Type 0 where
  pub key : String
  pub label : Option String

pub record BoardToml : Type 0 where
  pub name : String
  pub board_type : String
  pub sort_direction : String
  pub accumulative : Bool
  pub tiers : List TierToml
  pub metadata : Option TomlValue

pub record EntryToml : Type 0 where
  pub slug : String
  pub name : String
  pub position : Option ℤ
  pub score : Option F64
  pub tier : Option String
  pub metadata : Option TomlValue

pub record RankingsToml : Type 0 where
  pub entries : List EntryToml
  pub version_metadata : Option TomlValue

pub record ParsedBoard (V : Type 0) : Type 0 where
  pub slug : String
  pub board : BoardToml
  pub entries : List EntryToml
  pub version_metadata : Option V

-- A file: whether it exists, and its text where it can be read.
pub data File : Type 0 where
  missing unreadable_file : File
  text : String → File

-- A directory: its name where it is UTF-8, and the two files.
pub record BoardDir : Type 0 where
  pub file_name : Option String
  pub board_toml : File
  pub rankings_toml : File

abbrev pub read_to_string : String → File → Result String
read_to_string path (text s) = ok s
read_to_string path _ = err (validation (unreadable path))

abbrev pub exists_file : File → Bool
exists_file missing = false
exists_file _ = true

-- `toml::from_str` with the error that the code makes of its own.
abbrev pub parsed : {A : Type 0} → (String → Option A) → String → String → Result A
parsed from_str path s = ok_or (from_str s) (validation (unparsable path))

module _ {V : Type 0} (values : JsonValues V) (board_from_str : String → Option BoardToml)
    (rankings_from_str : String → Option RankingsToml) where
  -- The entries and the metadata; a missing file has no entries.
  abbrev pub read_rankings : File → Result (List EntryToml × Option V)
  read_rankings missing = ok ([], none)
  read_rankings file = do
    s ← read_to_string "rankings.toml" file
    rankings ← parsed rankings_from_str "rankings.toml" s
    ok (rankings.entries, json_of values rankings.version_metadata)

  unfoldable pub parse_board_dir : BoardDir → Result (ParsedBoard V)
  parse_board_dir dir = do
    slug ← ok_or dir.file_name (validation bad_directory)
    validate_slug slug
    s ← read_to_string "board.toml" dir.board_toml
    board ← parsed board_from_str "board.toml" s
    (entries, version_metadata) ← read_rankings dir.rankings_toml
    ok record { slug = slug; board = board; entries = entries; version_metadata = version_metadata }

  abbrev pub parsed_boards : Result (ParsedBoard V) → List (ParsedBoard V)
  parsed_boards (ok board) = board ∷ []
  parsed_boards (err e) = []

  -- The loop of `parse_boards_dir` over the directories, in the order of their names.
  unfoldable pub parse_all : List BoardDir → List (ParsedBoard V)
  parse_all [] = []
  parse_all (dir ∷ dirs) =
      let rest = parse_all dirs in
      if exists_file dir.board_toml then parsed_boards (parse_board_dir dir) ++ rest else rest

  -- `none` is a path that is not a directory, or one that cannot be listed.
  unfoldable pub parse_boards_dir : Option (List BoardDir) → Result (List (ParsedBoard V))
  parse_boards_dir none = err (validation bad_directory)
  parse_boards_dir (some dirs) = ok (parse_all dirs)
