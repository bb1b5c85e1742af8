-- ===== src/Tests/Sync.antt =====
-- Directories of boards that are synchronised, and a file that hides a removal.
use riley_leaderboards.Prelude.{
  ℕ, ◌+◌, ◌*◌, String, ◌≡◌, refl, Bool, true, false, ◌&&◌, Option, none, some, List, [], ◌∷◌, map,
  ◌==◌, if◌then◌else◌, eq_ℤ, F64, is_nan, is_infinite, float_key, float_lt, pos, bytes,
}
use riley_leaderboards.Prelude.Rank.{place, order_by}
use riley_leaderboards.Models.{Result, slug_hyphen, bad_directory, validation, ok, err, resolve}
use riley_leaderboards.Models.Distinct.{check_distinct}
use riley_leaderboards.Db.{Db}
use riley_leaderboards.Repo.{validate_slug, validate_name, scores_equal}
use riley_leaderboards.Repo.Boards
use riley_leaderboards.Repo.Boards.{latest_number, validate_board_type, validate_sort_direction}
use riley_leaderboards.Repo.Boards.Insert.{passes_checks, insert_board, update_row}
use riley_leaderboards.Repo.Entries
use riley_leaderboards.Repo.Entries.{insert_entry}
use riley_leaderboards.Repo.Versions
use riley_leaderboards.Repo.Versions.{lock_board, check_version_limit, next_number, check_version}
use riley_leaderboards.Repo.Versions.Validate.{
  validate_placements, check_by_type, check_positions, check_scores,
}
use riley_leaderboards.Repo.Versions.Diff.{by_slug}
use riley_leaderboards.Repo.Versions.Positions.{
  score_before, ranks_before, row_numbers, rank_of, assign, derive_scored_positions, ranking,
}
use riley_leaderboards.Repo.Versions.Placements.{
  fetch_placements, run_tier_queries, join_entries, listed_before, entry_for, check_entries,
  insert_placements, insert_placement,
}
use riley_leaderboards.Sync.{
  SyncAction, BoardSyncResult, any_changed, placements_changed, created, no_change, failed,
}
use riley_leaderboards.Sync.Parse.{
  toml_to_json, JsonValues, EntryToml, ParsedBoard, BoardToml, RankingsToml, File, missing, text,
  BoardDir, parse_board_dir, parse_all, parse_boards_dir,
}
use riley_leaderboards.Sync.Changes.{entry_by_slug, tier_config_of, tier_values}
use riley_leaderboards.Sync.Execute.{SyncKeys, sync_entries, sync_board, sync_all, sync_dir}
use riley_leaderboards.Sync.Recorded.{Recorded}
use riley_leaderboards.Sync.BoardHistory.{sync_board-Recorded}
use riley_leaderboards.Sync.Directory.{
  reported_versions, Grown, board_names, sync_files, sync_dir-reports,
}
use riley_leaderboards.Tests.Base.{
  Doc, docs, sql, empty, one, two, keys_from, str, num, nil, cell, field,
}

abbrev eq_doc : Doc → Doc → Bool
eq_doc (str s) (str t) = s == t
eq_doc (num i) (num j) = eq_ℤ i j
eq_doc nil nil = true
eq_doc (cell a x) (cell b y) = eq_doc a b && eq_doc x y
eq_doc (field k a x) (field l b y) = k == l && eq_doc a b && eq_doc x y
eq_doc _ _ = false

abbrev cells : List Doc → Doc
cells [] = nil
cells (d ∷ ds) = cell d (cells ds)

abbrev fields : List (String × Doc) → Doc
fields [] = nil
fields ((k, d) ∷ ds) = field k d (fields ds)

abbrev doc_values : JsonValues Doc
doc_values = record {
  string = str;
  integer = num;
  float = λ f. num (pos f);
  bool = λ b. if b then num (pos 1) else num (pos 0);
  array = cells;
  object = fields;
  eq = eq_doc;
}

abbrev ranked : String → F64 → EntryToml
ranked slug score = record {
  slug = slug;
  name = slug;
  position = none;
  score = some score;
  tier = none;
  metadata = none;
}

abbrev board_file : String → String → List EntryToml → ParsedBoard Doc
board_file slug board_type entries = record {
  slug = slug;
  board = record {
    name = "Chess";
    board_type = board_type;
    sort_direction = "desc";
    accumulative = false;
    tiers = [];
    metadata = none;
  };
  entries = entries;
  version_metadata = none;
}

abbrev chess_file : ParsedBoard Doc
chess_file = board_file "chess" "scored" (ranked "ann" one ∷ ranked "bob" two ∷ [])

-- Bob is gone and Ann stands twice.
abbrev twice_file : ParsedBoard Doc
twice_file = board_file "chess" "scored" (ranked "ann" one ∷ ranked "ann" one ∷ [])

abbrev keys_for : ℕ → SyncKeys
keys_for i = record {
  board_id = 100 * i;
  entry_ids = λ j. 100 * i + 10 + j;
  version = keys_from (100 * i + 50);
  now = i;
}

sync_code : Unit {0}
unfolding bytes validate_slug validate_name scores_equal float_lt float_key is_nan is_infinite
    order_by place Boards.get_by_slug Boards.create Boards.update insert_board update_row
    passes_checks validate_board_type validate_sort_direction resolve check_distinct check_positions
    check_by_type check_scores insert_entry Entries.create Entries.update Entries.list
    Entries.get_by_slug Versions.list Versions.get_latest Versions.create lock_board
    check_version_limit next_number latest_number check_version validate_placements check_entries
    insert_placements insert_placement entry_for join_entries listed_before run_tier_queries
    fetch_placements by_slug score_before ranks_before rank_of row_numbers assign ranking
    derive_scored_positions placements_changed any_changed entry_by_slug tier_config_of tier_values
    toml_to_json sync_entries sync_board sync_all sync_dir parse_board_dir parse_all
    parse_boards_dir
sync_code = tt

abbrev synced : List (ParsedBoard Doc) → Db Doc → Db Doc × Result (List BoardSyncResult)
synced boards = sync_dir docs doc_values sql keys_for (ok boards) none

abbrev actions : Result (List BoardSyncResult) → List SyncAction
actions (ok rs) = map (λ (r : BoardSyncResult). r.action) rs
actions (err e) = []

first_sync :
    actions (synced (board_file "x-" "scored" [] ∷ chess_file ∷ []) empty).1
    ≡ failed (validation (slug_hyphen "x-")) ∷ created 1 ∷ []
unfolding sync_code
first_sync = refl

abbrev once : Db Doc
once = (synced (chess_file ∷ []) empty).0

second_sync : actions (synced (chess_file ∷ []) once).1 ≡ no_change ∷ []
unfolding sync_code
second_sync = refl

-- The file has lost an entry, and no change is seen.
hidden_removal : actions (synced (twice_file ∷ []) once).1 ≡ no_change ∷ []
unfolding sync_code
hidden_removal = refl

sync_board-Recorded_example :
    Recorded "chess" empty (sync_board docs doc_values sql (keys_for 1) chess_file none empty)
sync_board-Recorded_example =
    sync_board-Recorded docs doc_values sql (keys_for 1) chess_file none empty

-- What the parser makes of the texts of the files.
abbrev read_board : String → Option BoardToml
read_board s = if s == "chess" then some chess_file.board else none

abbrev read_rows : String → Option RankingsToml
read_rows s = some (record { entries = chess_file.entries; version_metadata = none })

abbrev folder : String → File → BoardDir
folder name file = record { file_name = some name; board_toml = file; rankings_toml = text "rows" }

-- A board, a broken file, a directory without `board.toml`, and a board again.
abbrev folders : List BoardDir
folders =
    folder "chess" (text "chess")
    ∷ folder "draughts" (text "[")
    ∷ folder "notes" missing
    ∷ folder "go" (text "chess")
    ∷ []

abbrev synced_files : Db Doc × Result (List BoardSyncResult)
synced_files =
    sync_files docs doc_values sql keys_for read_board read_rows (some folders) none empty

abbrev named : Result (List BoardSyncResult) → List (String × SyncAction)
named (ok rs) = map (λ (r : BoardSyncResult). (r.slug, r.action)) rs
named (err e) = []

two_of_four : named synced_files.1 ≡ ("chess", created 1) ∷ ("go", created 1) ∷ []
unfolding sync_code
two_of_four = refl

sync_dir-reports_example :
    (sync_files docs doc_values sql keys_for read_board read_rows none none empty
      ≡ (empty, err (validation bad_directory)))
    × (rs : List BoardSyncResult) × (synced_files.1 ≡ ok rs)
    × (map (λ (r : BoardSyncResult). r.slug) rs
        ≡ board_names doc_values read_board read_rows folders)
    × Grown empty synced_files.0 (reported_versions rs)
sync_dir-reports_example =
    sync_dir-reports docs doc_values sql keys_for read_board read_rows folders none empty
