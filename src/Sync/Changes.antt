-- ===== src/Sync/Changes.antt =====
-- What `sync_board` of crates/riley-leaderboards-core/src/sync/execute.rs would write, from a parsed
-- board and what the database holds.
use riley_leaderboards.Prelude.{
  ℕ, ◌+◌, String, Bool, false, not, Option, none, some, List, [], ◌∷◌, ◌==◌, if◌then◌else◌, as_i32,
}
use riley_leaderboards.Models.{
  Nullable, Board, CreateBoard, UpdateBoard, Entry, CreateEntry, UpdateEntry, absent, null, value,
  CreatePlacement,
}
use riley_leaderboards.Sync.{json_ne}
use riley_leaderboards.Sync.Parse.{JsonValues, json_of, TierToml, EntryToml, ParsedBoard, parsed}

abbrev pub text_ne : String → String → Bool
text_ne a b = not (a == b)

abbrev pub when_changed : {A : Type 0} → Bool → A → Option A
when_changed changed a = if changed then some a else none

abbrev pub given : {A : Type 0} → Option A → Nullable A
given none = null
given (some a) = value a

abbrev pub nullable_when : {A : Type 0} → Bool → Option A → Nullable A
nullable_when changed a = if changed then given a else absent

module _ {V : Type 0} (values : JsonValues V) where
  abbrev label_field : Option String → List (String × V)
  label_field none = []
  label_field (some label) = ("label", values.string label) ∷ []

  -- The tiers as JSON, numbered from `i`.
  unfoldable pub tier_values : ℕ → List TierToml → List V
  tier_values i [] = []
  tier_values i (t ∷ ts) =
      values.object (
        ("key", values.string t.key)
        ∷ ("position", values.integer (as_i32 (i + 1)))
        ∷ label_field t.label)
      ∷ tier_values (i + 1) ts

  unfoldable pub tier_config_of : List TierToml → Option V
  tier_config_of [] = none
  tier_config_of (t ∷ ts) =
      some (values.object (("tiers", values.array (tier_values 0 (t ∷ ts))) ∷ []))

  abbrev pub create_board : ParsedBoard V → CreateBoard V
  create_board parsed = record {
    slug = parsed.slug;
    name = parsed.board.name;
    board_type = parsed.board.board_type;
    sort_direction = parsed.board.sort_direction;
    tier_config = tier_config_of parsed.board.tiers;
    metadata = json_of values parsed.board.metadata;
    accumulative = false;
    realtime = false;
    clear_on_snapshot = false;
  }

  -- What a change of the board would write, beside the tests that it makes.
  abbrev pub direction_changed : Board V → ParsedBoard V → Bool
  direction_changed existing parsed = text_ne existing.sort_direction parsed.board.sort_direction

  abbrev pub tiers_changed : Board V → ParsedBoard V → Bool
  tiers_changed existing parsed =
      json_ne values.eq existing.tier_config (tier_config_of parsed.board.tiers)

  abbrev pub metadata_changed : Board V → ParsedBoard V → Bool
  metadata_changed existing parsed =
      json_ne values.eq existing.metadata (json_of values parsed.board.metadata)

  abbrev pub update_board : Board V → ParsedBoard V → UpdateBoard V
  update_board existing parsed = record {
    name = when_changed (text_ne existing.name parsed.board.name) parsed.board.name;
    sort_direction = when_changed (direction_changed existing parsed) parsed.board.sort_direction;
    tier_config = nullable_when (tiers_changed existing parsed) (tier_config_of parsed.board.tiers);
    metadata =
        nullable_when (metadata_changed existing parsed) (json_of values parsed.board.metadata);
    realtime = none;
    clear_on_snapshot = none;
  }

  abbrev pub create_entry : EntryToml → CreateEntry V
  create_entry e = record { slug = e.slug; name = e.name; metadata = json_of values e.metadata }

  abbrev pub entry_metadata_changed : Entry V → EntryToml → Bool
  entry_metadata_changed existing e =
      json_ne values.eq existing.metadata (json_of values e.metadata)

  abbrev pub update_entry : Entry V → EntryToml → UpdateEntry V
  update_entry existing e = record {
    name = when_changed (text_ne existing.name e.name) e.name;
    metadata = nullable_when (entry_metadata_changed existing e) (json_of values e.metadata);
  }

  abbrev pub create_placement : EntryToml → CreatePlacement V
  create_placement e = record {
    entry_slug = e.slug;
    position = e.position;
    score = e.score;
    tier = e.tier;
    metadata = json_of values e.metadata;
  }

-- The map of entries by slug: of two with one slug the later one stays.
unfoldable pub entry_by_slug : {V : Type 0} → String → List (Entry V) → Option (Entry V)
entry_by_slug slug [] = none
entry_by_slug slug (e ∷ es) = elim (entry_by_slug slug es) [
  | some f ↦ some f
  | none ↦ if e.slug == slug then some e else none
]
