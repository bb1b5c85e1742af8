-- ===== src/Repo/Boards/Updates.antt =====
-- What `update` of repo/boards.rs does to the row that it finds.
use mathlib.Core.Path.{subst}
use riley_leaderboards.Prelude.{
  String, ◌≡◌, true, not, ◌&&◌, Option, map, arith, ◌==◌, eq_iff, num_eq, if◌then◌else◌, is_some,
}
use riley_leaderboards.Models.{
  refuse_if, bind-eq-ok, guard-eq-ok, realtime_not_accumulative, clear_not_realtime,
  direction_not_scored, validation, ok, DateTime, Nullable, resolve, Board, UpdateBoard, absent,
  null, value,
}
use riley_leaderboards.Models.Json.{Json}
use riley_leaderboards.Db.{Db}
use riley_leaderboards.Repo.{validate_name}
use riley_leaderboards.Repo.Boards
use riley_leaderboards.Repo.Boards.{
  validate_sort_direction, get_by_slug, on_some, updated_board, check_new_tiers,
}
use riley_leaderboards.Repo.Boards.Tiers.{validate_tier_config}
use riley_leaderboards.Repo.Boards.Insert.{passes_checks, update_row-eq-ok}
use riley_leaderboards.Repo.Boards.Consistency.{IsConsistent}

module _ (json : Json) where
  -- What `update` has checked of the row that it found, and the row that it becomes.
  pub record Updated (now : DateTime) (input : UpdateBoard json.Value) (old new : Board json.Value)
      : Type 0 where
    pub direction :
        refuse_if
          (is_some input.sort_direction && not (old.board_type == "scored"))
          (validation direction_not_scored)
        ≡ ok tt
    pub tier_config :
        (if old.board_type == "tiered" then check_new_tiers json input.tier_config else ok tt)
        ≡ ok tt
    pub passed : passes_checks (updated_board now input old) ≡ true
    pub row : updated_board now input old ≡ new

  pub update-Updated :
      (db : Db json.Value) (now : DateTime) (slug : String) (input : UpdateBoard json.Value)
      {b : Board json.Value} {db' : Db json.Value}
      → Boards.update json db now slug input ≡ ok (b, db')
      → (old : Board json.Value) × (get_by_slug db slug ≡ ok old)
        × Updated now input old b
        × (record db { boards = map (λ c. if num_eq c.id old.id then b else c) db.boards } ≡ db')
  unfolding Boards.update
  update-Updated db now slug input {db'} h =
      let (_, h) = guard-eq-ok (on_some input.name validate_name) _ h in
      let (_, h) = guard-eq-ok (on_some input.sort_direction validate_sort_direction) _ h in
      let (old, found, h) = bind-eq-ok (get_by_slug db slug) _ h in
      let (direction, h) = guard-eq-ok _ _ h in
      let (tier_config, h) = guard-eq-ok _ _ h in
      let new = updated_board now input old in
      let (_, h) =
        guard-eq-ok
          (refuse_if (new.realtime && not (old.accumulative && old.board_type == "scored"))
            (validation realtime_not_accumulative))
          _ h in
      let (_, h) =
        guard-eq-ok
          (refuse_if (new.clear_on_snapshot && not new.realtime) (validation clear_not_realtime)) _
          h in
      let (passed, row, table) = update_row-eq-ok db old.id new h in
      (
        old,
        found,
        record { direction = direction; tier_config = tier_config; passed = passed; row = row },
        subst
            (λ r.
              record db { boards = map (λ c. if num_eq c.id old.id then r else c) db.boards } ≡ db')
            row table,
      )

  kept :
      (given : Nullable json.Value) (old : Option json.Value)
      → check_new_tiers json given ≡ ok tt
      → validate_tier_config json old ≡ ok tt
      → validate_tier_config json (resolve given old) ≡ ok tt
  unfolding resolve
  kept absent old n h = h
  kept null old n h = cc
  kept (value v) old n h = n

  -- A consistent board stays consistent under `update`.
  pub Updated-IsConsistent :
      (now : DateTime) (input : UpdateBoard json.Value) {old new : Board json.Value}
      → Updated now input old new
      → IsConsistent json old
      → IsConsistent json new
  Updated-IsConsistent now input {old} u c = subst (IsConsistent json) u.row (record {
    checks = u.passed;
    direction = λ p. ground (arith, u.direction, c.direction p, eq_iff old.board_type "scored");
    tiers = λ p.
        kept input.tier_config old.tier_config
          (ground (arith, u.tier_config, (eq_iff old.board_type "tiered").1 p)) (c.tiers p);
  })
