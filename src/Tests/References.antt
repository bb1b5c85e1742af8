-- ===== src/Tests/References.antt =====
-- References and collections on concrete tables.
use riley_leaderboards.Prelude.{◌≡◌, refl, none, some, pos, bytes}
use riley_leaderboards.Models.{
  version_not_on_board, already_in_collection, not_found, conflict, ok, err, BoardReference,
  CreateReference, AddBoardToCollection,
}
use riley_leaderboards.Db.{Db}
use riley_leaderboards.Repo.{validate_slug, validate_name}
use riley_leaderboards.Repo.Boards
use riley_leaderboards.Repo.References
use riley_leaderboards.Repo.References.{
  validate_ref_type, validate_uri, validate_label, resolve_pinned, with_number,
}
use riley_leaderboards.Repo.References.Removal.{delete-create}
use riley_leaderboards.Repo.Collections
use riley_leaderboards.Repo.Collections.{add_board, remove_board}
use riley_leaderboards.Repo.Collections.Members.{remove_board-add_board}
use riley_leaderboards.Tests.Base.{docs, club, state, answer}

reference_code : Unit {0}
unfolding References.create References.delete validate_ref_type validate_uri validate_label
    resolve_pinned with_number bytes Collections.create Collections.get_by_slug add_board
    remove_board Boards.get_by_slug validate_slug validate_name
reference_code = tt

abbrev citing : CreateReference
citing = record {
  pinned_version_number = none;
  uri = "https://example.org/post";
  ref_type = "citation";
  label = none;
}

abbrev no_reference : BoardReference
no_reference = record {
  id = 0;
  board_id = 0;
  pinned_version_id = none;
  pinned_version_number = none;
  uri = "";
  ref_type = "";
  label = none;
  created_at = 0;
}

abbrev cited : Db docs.Value
cited = state club (References.create club 40 41 1 citing)

abbrev citation : BoardReference
citation = answer no_reference (References.create club 40 41 1 citing)

cited_ok : References.create club 40 41 1 citing ≡ ok (citation, cited)
unfolding reference_code
cited_ok = refl

refused :
    References.create club 40 41 1 (record citing { pinned_version_number = some (pos 3) })
    ≡ err (not_found (version_not_on_board (pos 3)))
unfolding reference_code
refused = refl

delete-create_example : References.delete cited 1 citation.id ≡ ok (tt, club)
delete-create_example = delete-create club 40 41 1 citing tt cited_ok

abbrev games : Db docs.Value
games =
    state club
      (Collections.create club 50 51 (record { slug = "games"; name = "Games"; metadata = none }))

abbrev chess_last : AddBoardToCollection
chess_last = record { board_slug = "chess"; display_order = pos 9 }

abbrev with_chess : Db docs.Value
with_chess = state games (add_board games "games" chess_last)

added : add_board games "games" chess_last ≡ ok (tt, with_chess)
unfolding reference_code
added = refl

twice :
    add_board with_chess "games" chess_last ≡ err (conflict (already_in_collection "chess" "games"))
unfolding reference_code
twice = refl

remove_board-add_board_example : remove_board with_chess "games" "chess" ≡ ok (tt, games)
remove_board-add_board_example = remove_board-add_board games "games" chess_last added
