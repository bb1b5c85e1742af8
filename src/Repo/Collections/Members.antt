-- ===== src/Repo/Collections/Members.antt =====
-- Boards that `add_board` and `remove_board` of repo/collections.rs put in and take out.
use mathlib.Core.Path.{subst}
use riley_leaderboards.Prelude.{String, ◌≡◌, refl, true, arith, num_eq_iff, any, All-of-any-false}
use riley_leaderboards.Models.{
  refuse_if, ok-injective, bind-eq-ok, guard-eq-ok, refuse_if-eq-ok, unique_violation, ok,
  AddBoardToCollection,
}
use riley_leaderboards.Db.{Db}
use riley_leaderboards.Repo.Boards
use riley_leaderboards.Repo.Collections.{
  is_member, new_member, get_by_slug, add_board, remove_board, add_error,
}
use riley_leaderboards.Repo.References.Removal.{keep-append_matched, any-append_matched}

module _ {V : Type 0} where
  -- A board that was added to a collection is removed from it again by its slug, and then the
  -- tables are as they were.
  pub remove_board-add_board :
      (db : Db V) (collection_slug : String) (input : AddBoardToCollection) {db' : Db V}
      → add_board db collection_slug input ≡ ok (tt, db')
      → remove_board db' collection_slug input.board_slug ≡ ok (tt, db)
  unfolding add_board remove_board get_by_slug Boards.get_by_slug
  remove_board-add_board db collection_slug input h =
      let (c, found, h) = bind-eq-ok (get_by_slug db collection_slug) _ h in
      let (b, board, h) = bind-eq-ok (Boards.get_by_slug db input.board_slug) _ h in
      let (missing, h) =
        guard-eq-ok
          (refuse_if (any (is_member c.id b.id) db.collection_boards)
            (add_error input.board_slug collection_slug unique_violation))
          _ h in
      let row = new_member c.id b.id input in
      let mine : is_member c.id b.id row ≡ true =
        ground (arith, (num_eq_iff c.id c.id).1 refl, (num_eq_iff b.id b.id).1 refl) in
      let others =
        All-of-any-false (is_member c.id b.id) db.collection_boards (refuse_if-eq-ok _ _ missing) in
      subst
        (λ (t : Unit {0} × Db V). remove_board t.1 collection_slug input.board_slug ≡ ok (tt, db))
        (ok-injective h)
        (rw (
          found,
          board,
          any-append_matched (is_member c.id b.id) db.collection_boards row mine,
          keep-append_matched (is_member c.id b.id) db.collection_boards row others mine,
        ))
