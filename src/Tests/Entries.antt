-- ===== src/Tests/Entries.antt =====
-- Entries on concrete tables.
use riley_leaderboards.Prelude.{◌≡◌, refl, ◌↔◌, none, some, [], ◌∷◌, pos, bytes}
use riley_leaderboards.Models.{
  entry_has_placements, entry_exists, conflict, ok, err, resolve, Placement,
}
use riley_leaderboards.Db.{Db}
use riley_leaderboards.Repo.{validate_slug, validate_name}
use riley_leaderboards.Repo.Entries
use riley_leaderboards.Repo.Entries.{
  insert_entry, get_by_slug, version_count, cascade_entry, join_versions,
}
use riley_leaderboards.Repo.Entries.Deletion.{Unplaced, delete_iff, delete-keeps_placements}
use riley_leaderboards.Prelude.Rank.{place, order_by}
use riley_leaderboards.Tests.Base.{docs, club, player}

entry_code : Unit {0}
unfolding Entries.create Entries.update Entries.delete Entries.history get_by_slug insert_entry
    version_count join_versions validate_slug validate_name bytes resolve order_by place
entry_code = tt

-- The club after a version in which ann is placed first.
abbrev first_place : Placement docs.Value
first_place = record {
  id = 31;
  version_id = 30;
  entry_id = 11;
  position = some (pos 1);
  score = none;
  tier = none;
  metadata = none;
}

abbrev played : Db docs.Value
played = record club {
  versions =
      record {
        id = 30;
        board_id = 1;
        version_number = 1;
        note = none;
        metadata = none;
        created_at = 30;
      }
      ∷ [];
  placements = first_place ∷ [];
}

entry_runs :
    (Entries.create played 13 200 1 (record { slug = "ann"; name = "Ann"; metadata = none })
      ≡ err (conflict (entry_exists "ann")))
    × (Entries.delete played 1 "ann" ≡ err (conflict (entry_has_placements "ann" 1)))
    × (Entries.history played 1 "ann" 50
        ≡ ok (
            record {
              version_number = 1;
              position = some (pos 1);
              score = none;
              tier = none;
              metadata = none;
              created_at = 30;
            }
            ∷ []))
unfolding entry_code
entry_runs = (refl, refl, refl)

deleted_bob : Entries.delete played 1 "bob" ≡ ok (tt, cascade_entry 12 played)
unfolding entry_code
deleted_bob = refl

bob_found : get_by_slug played 1 "bob" ≡ ok (player 12 "bob")
unfolding entry_code
bob_found = refl

delete_iff_example :
    (Entries.delete played 1 "bob" ≡ ok (tt, cascade_entry 12 played))
    ↔ Unplaced 12 played.placements
delete_iff_example = delete_iff played 1 "bob" (player 12 "bob") bob_found

delete-keeps_placements_example :
    ((cascade_entry 12 played).placements ≡ played.placements)
    × ((cascade_entry 12 played).versions ≡ played.versions)
    × ((cascade_entry 12 played).boards ≡ played.boards)
delete-keeps_placements_example = delete-keeps_placements played 1 "bob" deleted_bob
