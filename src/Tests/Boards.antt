-- ===== src/Tests/Boards.antt =====
-- Boards on concrete tables.
use riley_leaderboards.Prelude.{
  ◌+◌, ◌*◌, ◌≡◌, refl, ◌≢◌, ◌↔◌, true, false, none, some, [], ◌∷◌, bytes,
}
use riley_leaderboards.Models.{
  realtime_not_accumulative, board_exists, check_violation, database, conflict, validation, ok, err,
  Uuid, resolve, Board, CreateBoard, UpdateBoard, Entry, absent, null, Version, Placement,
}
use riley_leaderboards.Db.{Db}
use riley_leaderboards.Repo.{validate_slug, validate_name}
use riley_leaderboards.Repo.Slugs.{IsSlug, validate_slug_iff}
use riley_leaderboards.Repo.Boards
use riley_leaderboards.Repo.Boards.{
  validate_board_type, validate_sort_direction, get_by_slug, latest_number, cascade_board,
}
use riley_leaderboards.Repo.Boards.Tiers.{check_tiers, validate_tier_config}
use riley_leaderboards.Repo.Boards.TierLaws.{IsTierConfig, validate_tier_config_iff}
use riley_leaderboards.Repo.Boards.Insert.{insert_board, update_row, passes_checks}
use riley_leaderboards.Repo.Boards.Checks.{create-ne-check_violation}
use riley_leaderboards.Repo.Boards.Valid.{IsValid, create-IsValid, update-IsValid}
use riley_leaderboards.Tests.Base.{docs, two_tiers, empty, player}

board_code : Unit {0}
unfolding Boards.create Boards.update Boards.delete validate_slug validate_name bytes
    validate_board_type validate_sort_direction validate_tier_config check_tiers insert_board
    passes_checks get_by_slug update_row resolve cascade_board
board_code = tt

abbrev rivals : CreateBoard docs.Value
rivals = record {
  slug = "rivals";
  name = "Rivals";
  board_type = "tiered";
  sort_direction = "desc";
  tier_config = some two_tiers;
  metadata = none;
  accumulative = false;
  realtime = false;
  clear_on_snapshot = false;
}

-- The board that `create` makes of it, and the table with it.
abbrev made : Board docs.Value
made = Boards.new_board 7 50 rivals

abbrev with_rivals : Db docs.Value
with_rivals = record empty { boards = made ∷ [] }

created_rivals : Boards.create docs empty 7 50 rivals ≡ ok (made, with_rivals)
unfolding board_code
created_rivals = refl

taken : Boards.create docs with_rivals 8 60 rivals ≡ err (conflict (board_exists "rivals"))
unfolding board_code
taken = refl

realtime_refused :
    Boards.create docs empty 7 50 (record rivals { realtime = true })
    ≡ err (validation realtime_not_accumulative)
unfolding board_code
realtime_refused = refl

abbrev renaming : UpdateBoard docs.Value
renaming = record {
  name = some "Rivalries";
  sort_direction = none;
  tier_config = absent;
  metadata = null;
  realtime = none;
  clear_on_snapshot = none;
}

abbrev renamed : Board docs.Value
renamed = Boards.updated_board 70 renaming made

renamed_rivals :
    Boards.update docs with_rivals 70 "rivals" renaming
    ≡ ok (renamed, record empty { boards = renamed ∷ [] })
unfolding board_code
renamed_rivals = refl

deleted_rivals : Boards.delete with_rivals "rivals" ≡ ok (tt, empty)
unfolding board_code
deleted_rivals = refl

empty-IsValid : IsValid docs empty.boards
empty-IsValid = record { consistent = tt; slugs = tt; ids = tt }

validate_slug_iff_example : (validate_slug "two-words" ≡ ok tt) ↔ IsSlug (bytes "two-words")
validate_slug_iff_example = validate_slug_iff "two-words"

validate_tier_config_iff_example :
    (validate_tier_config docs (some two_tiers) ≡ ok tt) ↔ IsTierConfig docs (some two_tiers)
validate_tier_config_iff_example = validate_tier_config_iff docs (some two_tiers)

create-ne-check_violation_example :
    Boards.create docs empty 7 50 (record rivals { realtime = true })
    ≢ err (database check_violation)
create-ne-check_violation_example =
    create-ne-check_violation docs empty 7 50 (record rivals { realtime = true })

create-IsValid_example : IsValid docs with_rivals.boards
create-IsValid_example = create-IsValid docs empty 7 50 rivals empty-IsValid tt created_rivals

rivals-IsValid : IsValid docs with_rivals.boards
rivals-IsValid = create-IsValid docs empty 7 50 rivals empty-IsValid tt created_rivals

update-IsValid_example : IsValid docs (renamed ∷ [])
update-IsValid_example =
    update-IsValid docs with_rivals 70 "rivals" renaming rivals-IsValid renamed_rivals

-- A second board, with an entry, a version and a placement for each of the two.
abbrev others : CreateBoard docs.Value
others = record rivals { slug = "others" }

abbrev also_made : Board docs.Value
also_made = Boards.new_board 8 60 others

abbrev of_board : Uuid → Entry docs.Value
of_board id = record (player (10 * id + 1) "ann") { board_id = id }

abbrev issue : Uuid → Version docs.Value
issue id = record {
  id = 10 * id + 2;
  board_id = id;
  version_number = 1;
  note = none;
  metadata = none;
  created_at = 90;
}

abbrev ranked : Uuid → Placement docs.Value
ranked id = record {
  id = 10 * id + 3;
  version_id = 10 * id + 2;
  entry_id = 10 * id + 1;
  position = none;
  score = none;
  tier = none;
  metadata = none;
}

abbrev both : Db docs.Value
both = record with_rivals {
  boards = made ∷ also_made ∷ [];
  entries = of_board 7 ∷ of_board 8 ∷ [];
  versions = issue 7 ∷ issue 8 ∷ [];
  placements = ranked 7 ∷ ranked 8 ∷ [];
}

others_stay :
    Boards.delete both "rivals"
    ≡ ok (
      tt,
      record both {
        boards = also_made ∷ [];
        entries = of_board 8 ∷ [];
        versions = issue 8 ∷ [];
        placements = ranked 8 ∷ [];
      },
    )
unfolding board_code
others_stay = refl
