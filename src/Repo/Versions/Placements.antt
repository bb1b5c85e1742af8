-- ===== src/Repo/Versions/Placements.antt =====
-- Reading and inserting placements: `fetch_placements` and the INSERT loop of `create` in
-- crates/riley-leaderboards-core/src/repo/versions.rs.
pub mod Inserted
use riley_leaderboards.Prelude.{
  ℕ, ◌+◌, String, Bool, not, ◌&&◌, ◌||◌, Option, none, some, List, [], ◌∷◌, ◌++◌, map, ◌==◌, num_eq,
  if◌then◌else◌, is_some, unwrap_or, and_then, take, any, keep, find, ℤ, ltb_ℤ, eq_ℤ, max_i32, pos,
  lookup,
}
use riley_leaderboards.Prelude.Rank.{order_by}
use riley_leaderboards.Models.{
  Result, ◌>>=◌, ◌>>◌, refuse_if, ok_or, entry_not_on_board, unique_violation, invalid_value,
  database, validation, ok, Uuid, Board, Entry, value, Placement, CreatePlacement,
  PlacementWithEntry,
}
use riley_leaderboards.Db.{Db}
use riley_leaderboards.Repo.Versions.Validate.{resolved}

-- What the ORDER BY clauses take from Postgres: the value of the LATERAL subquery, which looks the
-- tier of a row up in the JSON of `tier_config`, and the collation of the names. The subquery has
-- no value (`none`) where Postgres refuses it: `jsonb_array_elements` is given tiers that are no
-- array, or the cast to `int` a position that is no integer.
pub record Sql (V : Type 0) : Type 0 where
  pub tier_ord : V → Option String → Option (Option ℤ)
  pub name_lt : String → String → Bool

-- `COALESCE(x, 2147483647)`
abbrev pub coalesce : Option ℤ → ℤ
coalesce i = unwrap_or i (pos max_i32)

abbrev pub lexicographic : ℤ → ℤ → Bool → Bool
lexicographic a b rest = ltb_ℤ a b || (eq_ℤ a b && rest)

module _ {V : Type 0} where
  abbrev pub with_entry : Placement V → Entry V → PlacementWithEntry V
  with_entry p e = record {
    id = p.id;
    version_id = p.version_id;
    entry_id = p.entry_id;
    position = p.position;
    score = p.score;
    tier = p.tier;
    metadata = p.metadata;
    entry_slug = e.slug;
    entry_name = e.name;
  }

  abbrev join_one : Placement V → Option (Entry V) → List (PlacementWithEntry V)
  join_one p none = []
  join_one p (some e) = with_entry p e ∷ []

  -- `placements p JOIN entries e ON e.id = p.entry_id`
  unfoldable pub join_entries : List (Entry V) → List (Placement V) → List (PlacementWithEntry V)
  join_entries entries [] = []
  join_entries entries (p ∷ ps) =
      join_one p (find (λ e. num_eq e.id p.entry_id) entries) ++ join_entries entries ps

  -- The subquery for a row; a board without a configuration (SQL's NULL) has no tiers.
  abbrev pub tier_query : Sql V → Option V → Option String → Option (Option ℤ)
  tier_query sql none tier = some none
  tier_query sql (some tc) tier = sql.tier_ord tc tier

  abbrev tier_of : Sql V → Option V → Option String → Option ℤ
  tier_of sql tier_config tier = unwrap_or (tier_query sql tier_config tier) none

  -- The whole query fails when the subquery fails for one of its rows.
  unfoldable pub run_tier_queries :
      Sql V → Option V → List (PlacementWithEntry V) → Result (Unit {0})
  run_tier_queries sql tier_config rows =
      refuse_if (any (λ p. not (is_some (tier_query sql tier_config p.tier))) rows)
        (database invalid_value)

  -- `ORDER BY COALESCE(tc.tier_ord, ..), COALESCE(p.position, ..), e.name`
  unfoldable pub listed_before :
      Sql V → Option V → PlacementWithEntry V → PlacementWithEntry V → Bool
  listed_before sql tier_config p q =
      lexicographic (coalesce (tier_of sql tier_config p.tier))
        (coalesce (tier_of sql tier_config q.tier))
        (lexicographic (coalesce p.position) (coalesce q.position)
          (sql.name_lt p.entry_name q.entry_name))

  -- The configuration of the version's board (`JOIN versions v .. JOIN boards b ..`).
  abbrev pub config_of : Db V → Uuid → Option V
  config_of db version_id =
      and_then (find (λ v. num_eq v.id version_id) db.versions)
        λ v. and_then (find (λ b. num_eq b.id v.board_id) db.boards) λ b. b.tier_config

  unfoldable pub fetch_placements : Sql V → Db V → Uuid → Result (List (PlacementWithEntry V))
  fetch_placements sql db version_id = do
    let tiers = config_of db version_id
    let rows = join_entries db.entries (keep (λ p. num_eq p.version_id version_id) db.placements)
    run_tier_queries sql tiers rows
    ok (order_by (listed_before sql tiers) rows)

  -- An entry of the board with the slug: the entry map of `create` and of the snapshots.
  unfoldable pub entry_for : List (Entry V) → Uuid → String → Option (Entry V)
  entry_for entries board_id slug = find (λ e. num_eq e.board_id board_id && e.slug == slug) entries

  -- `entry_map.contains_key` for each placement
  unfoldable pub check_entries :
      List (Entry V) → Board V → List (CreatePlacement V) → Result (Unit {0})
  check_entries entries board [] = ok tt
  check_entries entries board (p ∷ ps) = do
    refuse_if (not (is_some (entry_for entries board.id p.entry_slug)))
        (validation (entry_not_on_board p.entry_slug board.slug))
    check_entries entries board ps

  abbrev position_for : Board V → ℕ → CreatePlacement V → Option ℤ
  position_for board i p = if board.board_type == "ordered" then some (resolved i p) else p.position

  abbrev pub new_placement : Board V → Uuid → Uuid → ℕ → Entry V → CreatePlacement V → Placement V
  new_placement board version_id id i e p = record {
    id = id;
    version_id = version_id;
    entry_id = e.id;
    position = position_for board i p;
    score = p.score;
    tier = p.tier;
    metadata = p.metadata;
  }

  -- INSERT INTO placements, with UNIQUE (version_id, entry_id)
  unfoldable pub insert_placement : List (Placement V) → Placement V → Result (List (Placement V))
  insert_placement table p = do
    refuse_if (any (λ q. num_eq q.version_id p.version_id && num_eq q.entry_id p.entry_id) table)
        (database unique_violation)
    ok (table ++ p ∷ [])

  -- The loop: `ids i` is the key of the i-th row, and the entries are those found above, so the
  -- lookup succeeds (`entry_map[..]` would panic).
  unfoldable pub insert_placements :
      Board V
      → Uuid
      → (ℕ → Uuid)
      → List (Entry V)
      → ℕ
      → List (CreatePlacement V)
      → List (Placement V)
      → Result (List (PlacementWithEntry V) × List (Placement V))
  insert_placements board version_id ids entries i [] table = ok ([], table)
  insert_placements board version_id ids entries i (p ∷ ps) table = do
    e ←
        ok_or (entry_for entries board.id p.entry_slug)
          (validation (entry_not_on_board p.entry_slug board.slug))
    let row = new_placement board version_id (ids i) i e p
    table' ← insert_placement table row
    (rest, table'') ← insert_placements board version_id ids entries (i + 1) ps table'
    ok (with_entry row e ∷ rest, table'')
