-- ===== src/Repo/Boards/Consistency.antt =====
-- The fields of a board fit together, after `create` and after `update` of repo/boards.rs.
use riley_leaderboards.Prelude.{◌≡◌, ◌≢◌, true, not, ◌&&◌, arith, ◌==◌, eq_iff, if◌then◌else◌}
use riley_leaderboards.Models.{
  refuse_if, guard-eq-ok, accumulative_not_scored, realtime_not_accumulative, clear_not_realtime,
  direction_not_scored, validation, ok, Uuid, DateTime, Board, CreateBoard,
}
use riley_leaderboards.Models.Json.{Json}
use riley_leaderboards.Db.{Db}
use riley_leaderboards.Repo.{validate_slug, validate_name}
use riley_leaderboards.Repo.Boards
use riley_leaderboards.Repo.Boards.{
  validate_board_type, validate_sort_direction, get_by_slug, create_error, on_some, updated_board,
}
use riley_leaderboards.Repo.Boards.Tiers.{validate_tier_config}
use riley_leaderboards.Repo.Boards.Insert.{passes_checks, Inserted, insert_board-eq-ok}

module _ (json : Json) where
  -- What a stored board satisfies: the table's CHECKs, and what only the code makes sure of.
  pub record IsConsistent (b : Board json.Value) : Type 0 where
    pub checks : passes_checks b ≡ true
    pub direction : b.board_type ≢ "scored" → b.sort_direction ≡ "desc"
    pub tiers : b.board_type ≡ "tiered" → validate_tier_config json b.tier_config ≡ ok tt

  -- What `create` has checked when it inserts, and the row that it inserts.
  pub record Accepted (db : Db json.Value) (id : Uuid) (now : DateTime)
      (input : CreateBoard json.Value) (b : Board json.Value) (db' : Db json.Value) : Type 0 where
    pub slug : validate_slug input.slug ≡ ok tt
    pub name : validate_name input.name ≡ ok tt
    pub board_type : validate_board_type input.board_type ≡ ok tt
    pub sort_direction : validate_sort_direction input.sort_direction ≡ ok tt
    pub tier_config :
        (if input.board_type == "tiered"
          then validate_tier_config json input.tier_config
          else ok tt)
        ≡ ok tt
    pub accumulative :
        refuse_if
          (input.accumulative && not (input.board_type == "scored"))
          (validation accumulative_not_scored)
        ≡ ok tt
    pub realtime :
        refuse_if
          (input.realtime && not (input.accumulative && input.board_type == "scored"))
          (validation realtime_not_accumulative)
        ≡ ok tt
    pub clear :
        refuse_if (input.clear_on_snapshot && not input.realtime) (validation clear_not_realtime)
        ≡ ok tt
    pub direction :
        refuse_if
          (not (input.board_type == "scored") && not (input.sort_direction == "desc"))
          (validation direction_not_scored)
        ≡ ok tt
    pub inserted : Inserted db (Boards.new_board id now input) b db'

  pub create-Accepted :
      (db : Db json.Value) (id : Uuid) (now : DateTime) (input : CreateBoard json.Value)
      {b : Board json.Value} {db' : Db json.Value}
      → Boards.create json db id now input ≡ ok (b, db')
      → Accepted db id now input b db'
  unfolding Boards.create
  create-Accepted db id now input h =
      let (slug, h) = guard-eq-ok _ _ h in
      let (name, h) = guard-eq-ok _ _ h in
      let (board_type, h) = guard-eq-ok _ _ h in
      let (sort_direction, h) = guard-eq-ok _ _ h in
      let (tier_config, h) = guard-eq-ok _ _ h in
      let (accumulative, h) = guard-eq-ok _ _ h in
      let (realtime, h) = guard-eq-ok _ _ h in
      let (clear, h) = guard-eq-ok _ _ h in
      let (direction, h) = guard-eq-ok _ _ h in
      record {
        slug = slug;
        name = name;
        board_type = board_type;
        sort_direction = sort_direction;
        tier_config = tier_config;
        accumulative = accumulative;
        realtime = realtime;
        clear = clear;
        direction = direction;
        inserted = insert_board-eq-ok (create_error input.slug) db _ h;
      }

  -- A board that `create` returns is consistent.
  pub create-IsConsistent :
      (db : Db json.Value) (id : Uuid) (now : DateTime) (input : CreateBoard json.Value)
      {b : Board json.Value} {db' : Db json.Value}
      → Boards.create json db id now input ≡ ok (b, db')
      → IsConsistent b
  create-IsConsistent db id now input {b} h =
      let a = create-Accepted db id now input h in
      rw (← a.inserted.row) (record {
        checks = a.inserted.passed;
        direction = ground (
          arith,
          a.direction,
          eq_iff input.board_type "scored",
          eq_iff input.sort_direction "desc",
        );
        tiers = ground (arith, a.tier_config, eq_iff input.board_type "tiered");
      })
