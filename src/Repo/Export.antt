-- ===== src/Repo/Export.antt =====
-- `export_board` of crates/riley-leaderboards-core/src/repo/export.rs.
pub mod Groups
pub mod Reads
pub mod Complete
use riley_leaderboards.Prelude.{
  ℕ, String, Bool, not, ◌&&◌, ◌||◌, Option, none, some, List, [], ◌∷◌, ◌++◌, map, ltb, leb, num_eq,
  if◌then◌else◌, and_then, all, keep, find, ℤ, F64,
}
use riley_leaderboards.Prelude.Rank.{order_by}
use riley_leaderboards.Models.{Result, ◌>>=◌, ◌>>◌, ok, Uuid, Board, Version, PlacementWithEntry}
use riley_leaderboards.Db.{Db}
use riley_leaderboards.Repo.Boards
use riley_leaderboards.Repo.Boards.{get_by_slug}
use riley_leaderboards.Repo.Versions
use riley_leaderboards.Repo.Versions.{list}
use riley_leaderboards.Repo.Versions.Placements.{Sql, join_entries, listed_before, run_tier_queries}

module _ (V : Type 0) where
  pub record BoardExportMeta : Type 0 where
    pub slug : String
    pub name : String
    pub board_type : String
    pub sort_direction : String
    pub tier_config : Option V
    pub metadata : Option V
    pub accumulative : Bool
    pub realtime : Bool
    pub clear_on_snapshot : Bool

  pub record PlacementExport : Type 0 where
    pub entry_slug : String
    pub entry_name : String
    pub position : Option ℤ
    pub score : Option F64
    pub tier : Option String
    pub metadata : Option V

  pub record VersionExport : Type 0 where
    pub version_number : ℕ
    pub note : Option String
    pub metadata : Option V
    pub placements : List PlacementExport

  pub record BoardExport : Type 0 where
    pub board : BoardExportMeta
    pub versions : List VersionExport

-- `HashMap<Uuid, Vec<_>>`: a list with one row for each key.
module _ {A : Type 0} where
  -- `entry(id).or_default().push(a)`
  unfoldable pub push : Uuid → A → List (Uuid × List A) → List (Uuid × List A)
  push id a [] = (id, a ∷ []) ∷ []
  push id a ((k, held) ∷ rows) =
      let rest = push id a rows in
      if num_eq k id then (k, held ++ a ∷ []) ∷ rows else (k, held) ∷ rest

  -- What `remove(&id).unwrap_or_default()` gives.
  unfoldable pub removed : Uuid → List (Uuid × List A) → List A
  removed id [] = []
  removed id ((k, held) ∷ rows) = if num_eq k id then held else removed id rows

  -- What `remove(&id)` leaves.
  abbrev pub without : Uuid → List (Uuid × List A) → List (Uuid × List A)
  without id rows = keep (λ r. not (num_eq r.0 id)) rows

module _ {V : Type 0} where
  abbrev pub board_export_meta : Board V → BoardExportMeta V
  board_export_meta b = record {
    slug = b.slug;
    name = b.name;
    board_type = b.board_type;
    sort_direction = b.sort_direction;
    tier_config = b.tier_config;
    metadata = b.metadata;
    accumulative = b.accumulative;
    realtime = b.realtime;
    clear_on_snapshot = b.clear_on_snapshot;
  }

  abbrev pub placement_export : PlacementWithEntry V → PlacementExport V
  placement_export p = record {
    entry_slug = p.entry_slug;
    entry_name = p.entry_name;
    position = p.position;
    score = p.score;
    tier = p.tier;
    metadata = p.metadata;
  }

  abbrev number_one : PlacementWithEntry V → Option (Version V) → List (ℕ × PlacementWithEntry V)
  number_one p none = []
  number_one p (some v) = (v.version_number, p) ∷ []

  -- `JOIN versions v ON v.id = p.version_id .. WHERE v.board_id = $1`, with the version's number.
  unfoldable pub numbered :
      List (Version V) → Uuid → List (PlacementWithEntry V) → List (ℕ × PlacementWithEntry V)
  numbered versions board_id [] = []
  numbered versions board_id (p ∷ ps) =
      number_one p (find (λ v. num_eq v.id p.version_id && num_eq v.board_id board_id) versions)
      ++ numbered versions board_id ps

  -- `ORDER BY v.version_number`, and then as in `fetch_placements`.
  unfoldable pub exported_before :
      Sql V → Option V → ℕ × PlacementWithEntry V → ℕ × PlacementWithEntry V → Bool
  exported_before sql tier_config (m, p) (n, q) =
      ltb m n || (num_eq m n && listed_before sql tier_config p q)

  -- The configuration of the board (`JOIN boards b ON b.id = v.board_id`).
  abbrev pub board_tiers : Db V → Uuid → Option V
  board_tiers db board_id = and_then (find (λ b. num_eq b.id board_id) db.boards) λ b. b.tier_config

  -- The placements of all versions in one query, which fails like that of `fetch_placements`.
  unfoldable pub all_placements : Sql V → Db V → Uuid → Result (List (PlacementWithEntry V))
  all_placements sql db board_id = do
    let tiers = board_tiers db board_id
    let rows = numbered db.versions board_id (join_entries db.entries db.placements)
    run_tier_queries sql tiers (map (λ x. x.1) rows)
    ok (map (λ x. x.1) (order_by (exported_before sql tiers) rows))

  unfoldable pub group_placements :
      List (PlacementWithEntry V)
      → List (Uuid × List (PlacementExport V))
      → List (Uuid × List (PlacementExport V))
  group_placements [] groups = groups
  group_placements (p ∷ ps) groups =
      group_placements ps (push p.version_id (placement_export p) groups)

  abbrev pub version_export : Version V → List (PlacementExport V) → VersionExport V
  version_export v placements = record {
    version_number = v.version_number;
    note = v.note;
    metadata = v.metadata;
    placements = placements;
  }

  -- The `map` over the versions, which takes each version's group out of the map.
  unfoldable pub version_exports :
      List (Uuid × List (PlacementExport V)) → List (Version V) → List (VersionExport V)
  version_exports groups [] = []
  version_exports groups (v ∷ vs) =
      version_export v (removed v.id groups) ∷ version_exports (without v.id groups) vs

  -- `sort_by_key(|v| v.version_number)`, which is stable.
  abbrev pub sort_versions : List (VersionExport V) → List (VersionExport V)
  sort_versions vs = order_by (λ v w. leb v.version_number w.version_number) vs

  unfoldable pub export_board : Sql V → Db V → String → Result (BoardExport V)
  export_board sql db slug = do
    board ← Boards.get_by_slug db slug
    placements ← all_placements sql db board.id
    let groups = group_placements placements []
    ok (record {
      board = board_export_meta board;
      versions = sort_versions (version_exports groups (Versions.list db board.id));
    })
