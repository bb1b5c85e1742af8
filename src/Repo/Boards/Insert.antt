-- ===== src/Repo/Boards/Insert.antt =====
-- The INSERT and UPDATE statements of repo/boards.rs, with the constraints that the migrations
-- put on the table: the CHECKs, then the unique slug.
use riley_leaderboards.Prelude.{
  ◌≡◌, Bool, true, false, not, ◌&&◌, ◌||◌, [], ◌∷◌, ◌++◌, map, ◌==◌, num_eq, if◌then◌else◌,
  not-eq-false, any,
}
use riley_leaderboards.Models.{
  DbError, Error, Result, ◌>>◌, refuse_if, guard-eq-ok, refuse_if-eq-ok, unique_violation,
  check_violation, database, ok, Uuid, Board,
}
use riley_leaderboards.Db.{Db}

module _ {V : Type 0} where
  -- The CHECK constraints of migrations 001, 002 and 005.
  unfoldable pub passes_checks : Board V → Bool
  passes_checks b =
      (b.board_type == "ordered" || b.board_type == "scored" || b.board_type == "tiered")
      && (b.sort_direction == "asc" || b.sort_direction == "desc")
      && (not b.accumulative || b.board_type == "scored")
      && (not b.realtime || (b.accumulative && b.board_type == "scored"))
      && (not b.clear_on_snapshot || b.realtime)

  -- INSERT INTO boards .. RETURNING *
  unfoldable pub insert_board : (DbError → Error) → Db V → Board V → Result (Board V × Db V)
  insert_board map_err db b = do
    refuse_if (not (passes_checks b)) (map_err check_violation)
    refuse_if (any (λ c. c.slug == b.slug) db.boards) (map_err unique_violation)
    ok (b, record db { boards = db.boards ++ b ∷ [] })

  -- UPDATE boards .. WHERE id = $7 RETURNING *; `b` is the row as it becomes.
  unfoldable pub update_row : Db V → Uuid → Board V → Result (Board V × Db V)
  update_row db id b = do
    refuse_if (not (passes_checks b)) (database check_violation)
    ok (b, record db { boards = map (λ c. if num_eq c.id id then b else c) db.boards })

  -- What an INSERT that went through did.
  pub record Inserted (db : Db V) (given b : Board V) (db' : Db V) : Type 0 where
    pub row : given ≡ b
    pub passed : passes_checks given ≡ true
    pub fresh : any (λ c. c.slug == given.slug) db.boards ≡ false
    pub table : record db { boards = db.boards ++ given ∷ [] } ≡ db'

  pub insert_board-eq-ok :
      (map_err : DbError → Error) (db : Db V) (given : Board V) {b : Board V} {db' : Db V}
      → insert_board map_err db given ≡ ok (b, db')
      → Inserted db given b db'
  unfolding insert_board
  insert_board-eq-ok map_err db given h =
      let (passed, h) = guard-eq-ok _ _ h in
      let (fresh, h) = guard-eq-ok _ _ h in
      record {
        row = cc;
        passed = not-eq-false _ (refuse_if-eq-ok _ _ passed);
        fresh = refuse_if-eq-ok _ _ fresh;
        table = cc;
      }

  pub update_row-eq-ok :
      (db : Db V) (id : Uuid) (given : Board V) {b : Board V} {db' : Db V}
      → update_row db id given ≡ ok (b, db')
      → (passes_checks given ≡ true)
        × (given ≡ b)
        × (record db { boards = map (λ c. if num_eq c.id id then given else c) db.boards } ≡ db')
  unfolding update_row
  update_row-eq-ok db id given h =
      let (passed, h) = guard-eq-ok _ _ h in (not-eq-false _ (refuse_if-eq-ok _ _ passed), cc, cc)
