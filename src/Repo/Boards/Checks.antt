-- ===== src/Repo/Boards/Checks.antt =====
-- The checks of `create` in repo/boards.rs are at least as strict as the CHECK constraints.
use riley_leaderboards.Prelude.{
  ℕ, ◌+◌, String, ◌≡◌, ◌≢◌, Bool, true, false, not, ◌&&◌, Option, List, [], ◌∷◌, arith, ◌==◌,
  if◌then◌else◌,
}
use riley_leaderboards.Models.{
  refuse_if-eq-ok, guard-ne, NoDb, NoDb-refuse_if, no_db_rules, check_violation, database, ok, err,
  Uuid, DateTime, Board, CreateBoard,
}
use riley_leaderboards.Models.Json.{Json}
use riley_leaderboards.Db.{Db}
use riley_leaderboards.Repo.{validate_slug, validate_name}
use riley_leaderboards.Repo.Boards
use riley_leaderboards.Repo.Boards.{validate_board_type, validate_sort_direction, create_error}
use riley_leaderboards.Repo.Boards.Tiers.{check_tiers, validate_tier_config}
use riley_leaderboards.Repo.Boards.Insert.{passes_checks, insert_board}

validate_slug-NoDb : (s : String) → NoDb (validate_slug s)
unfolding validate_slug
validate_slug-NoDb s = search no_db_rules

validate_name-NoDb : (s : String) → NoDb (validate_name s)
unfolding validate_name
validate_name-NoDb s = search no_db_rules

validate_board_type-NoDb : (s : String) → NoDb (validate_board_type s)
unfolding validate_board_type
validate_board_type-NoDb s = search no_db_rules

validate_sort_direction-NoDb : (s : String) → NoDb (validate_sort_direction s)
unfolding validate_sort_direction
validate_sort_direction-NoDb s = search no_db_rules

module _ (json : Json) where
  -- What `create` has checked when it reaches the INSERT implies the CHECKs of the table.
  checked :
      (id : Uuid) (now : DateTime) (input : CreateBoard json.Value)
      → validate_board_type input.board_type ≡ ok tt
      → validate_sort_direction input.sort_direction ≡ ok tt
      → (input.accumulative && not (input.board_type == "scored")) ≡ false
      → (input.realtime && not (input.accumulative && input.board_type == "scored")) ≡ false
      → (input.clear_on_snapshot && not input.realtime) ≡ false
      → passes_checks (Boards.new_board id now input) ≡ true
  unfolding validate_board_type validate_sort_direction passes_checks
  checked id now input t s a r c = ground arith

  check_tiers-NoDb :
      (i : ℕ) (seen : List String) (tiers : List json.Value) → NoDb (check_tiers json i seen tiers)
  unfolding check_tiers
  check_tiers-NoDb i seen [] = search no_db_rules
  check_tiers-NoDb i seen (tier ∷ tiers) =
      search (no_db_rules, λ (key : String). check_tiers-NoDb (i + 1) (key ∷ seen) tiers) depth 9

  validate_tier_config-NoDb : (c : Option json.Value) → NoDb (validate_tier_config json c)
  unfolding validate_tier_config
  validate_tier_config-NoDb c = search (no_db_rules, check_tiers-NoDb) depth 9

  tiered-NoDb :
      (b : Bool) (c : Option json.Value) → NoDb (if b then validate_tier_config json c else ok tt)
  tiered-NoDb b c = search (no_db_rules, validate_tier_config-NoDb)

  insert_board-ne :
      (db : Db json.Value) (slug : String) (b : Board json.Value)
      → passes_checks b ≡ true
      → insert_board (create_error slug) db b ≢ err (database check_violation)
  unfolding insert_board
  insert_board-ne db slug b passed = rw passed (ground arith)

  -- `create` never runs into a CHECK constraint: whatever the input, its own checks refuse it first.
  pub create-ne-check_violation :
      (db : Db json.Value) (id : Uuid) (now : DateTime) (input : CreateBoard json.Value)
      → Boards.create json db id now input ≢ err (database check_violation)
  unfolding Boards.create
  create-ne-check_violation db id now input =
      guard-ne _ _ _ ((validate_slug-NoDb input.slug).ne _) λ _.
        guard-ne _ _ _ ((validate_name-NoDb input.name).ne _) λ _.
          guard-ne _ _ _ ((validate_board_type-NoDb input.board_type).ne _) λ t.
            guard-ne _ _ _ ((validate_sort_direction-NoDb input.sort_direction).ne _) λ s.
              guard-ne _ _ _ ((tiered-NoDb (input.board_type == "tiered") input.tier_config).ne _)
                λ _. guard-ne _ _ _ ((NoDb-refuse_if _ _).ne _) λ a.
                  guard-ne _ _ _ ((NoDb-refuse_if _ _).ne _) λ r.
                    guard-ne _ _ _ ((NoDb-refuse_if _ _).ne _) λ c.
                      guard-ne _ _ _ ((NoDb-refuse_if _ _).ne _) λ _.
                        insert_board-ne db input.slug _ (
                          checked id now input t s (refuse_if-eq-ok _ _ a) (refuse_if-eq-ok _ _ r)
                            (refuse_if-eq-ok _ _ c))
