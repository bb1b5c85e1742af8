-- ===== src/Repo/Scores/Snapshots.antt =====
-- What `snapshot` of repo/scores.rs changes, and what it leaves as it was.
use mathlib.Core.Path.{subst}
use mathlib.Core.List.{Perm}
use riley_leaderboards.Prelude.{
  ℕ, String, ◌≡◌, sym, ap, ◌∙◌, true, not, Option, List, arith, ◌==◌, num_eq, num_eq_iff,
  not-eq-false, length, keep, ℤ,
}
use riley_leaderboards.Prelude.Rank.{IsSorted}
use riley_leaderboards.Models.{
  refuse_if, ok-injective, bind-eq-ok, guard-eq-ok, refuse_if-eq-ok, snapshot_not_accumulative,
  snapshot_not_scored, snapshot_empty, validation, ok, Board, Placement, VersionWithPlacements,
}
use riley_leaderboards.Db.{Db}
use riley_leaderboards.Repo.Scores
use riley_leaderboards.Repo.Scores.Inserted.{
  score_rows, IsFresh, derived-keeps_placements, derived-IsRanked,
}
use riley_leaderboards.Repo.Scores.{check_entry_limit, board_scores, score_placement, insert_scores}
use riley_leaderboards.Repo.Versions.{
  Keys, new_version, check_version_limit, next_number, check_version, add_version, lock_board,
}
use riley_leaderboards.Repo.Versions.Immutability.{lock_board-id}
use riley_leaderboards.Repo.Versions.Numbers.{
  top, total, HasNoGap, top-append, total-append, next_number-eq-ok,
}
use riley_leaderboards.Repo.Versions.Placements.{Sql}
use riley_leaderboards.Repo.Versions.Positions.{of_version, derive_scored_positions, ranks_before}
use riley_leaderboards.Repo.Versions.Positions.Ranking.{numbered}

module _ {V : Type 0} where
  -- What `snapshot` did when it returned a version.
  pub record Snapped (sql : Sql V) (db : Db V) (keys : Keys) (given : Board V)
      (note : Option String) (metadata : Option V) (r : VersionWithPlacements V) (db' : Db V)
      : Type 0 where
    pub board : Board V
    pub accumulative : given.accumulative ≡ true
    pub locked : lock_board db given.id ≡ ok board
    pub number : ℕ
    pub next : next_number db board.id ≡ ok number
    pub table : List (Placement V)
    pub inserted :
        insert_scores keys.version_id keys.placement_ids 0 (board_scores db board.id) db.placements
        ≡ ok table
    pub version : r.version ≡ new_version keys board.id number note metadata
    pub after :
        record (add_version db (new_version keys board.id number note metadata)) {
          placements = derive_scored_positions keys.version_id board.sort_direction table;
        }
        ≡ db'

  pub snapshot-Snapped :
      (sql : Sql V) (db : Db V) (keys : Keys) (given : Board V) (note : Option String)
      (metadata : Option V) (max_versions : Option ℤ) (max_entries : Option ℕ)
      {r : VersionWithPlacements V} {db' : Db V}
      → Scores.snapshot sql db keys given note metadata max_versions max_entries ≡ ok (r, db')
      → Snapped sql db keys given note metadata r db'
  unfolding Scores.snapshot
  snapshot-Snapped sql db keys given note metadata max_versions max_entries h =
      let (accumulative, h) =
        guard-eq-ok (refuse_if (not given.accumulative) (validation snapshot_not_accumulative)) _
          h in
      let (_, h) =
        guard-eq-ok
          (refuse_if (not (given.board_type == "scored")) (validation snapshot_not_scored)) _ h in
      let (board, locked, h) = bind-eq-ok (lock_board db given.id) _ h in
      let (_, h) = guard-eq-ok (check_version_limit db board.id max_versions) _ h in
      let scores = board_scores db board.id in
      let (_, h) =
        guard-eq-ok (refuse_if (num_eq (length scores) 0) (validation snapshot_empty)) _ h in
      let (_, h) = guard-eq-ok (check_entry_limit (length scores) max_entries) _ h in
      let (number, next, h) = bind-eq-ok (next_number db board.id) _ h in
      let version = new_version keys board.id number note metadata in
      let (_, h) = guard-eq-ok (check_version db version) _ h in
      let (table, inserted, h) =
        bind-eq-ok (insert_scores version.id keys.placement_ids 0 scores db.placements) _ h in
      record {
        board = board;
        accumulative = not-eq-false _ (refuse_if-eq-ok _ _ accumulative);
        locked = locked;
        number = number;
        next = next;
        table = table;
        inserted = inserted;
        version = sym (ap (λ (t : VersionWithPlacements V × Db V). t.0.version) (ok-injective h));
        after = ap (λ (t : VersionWithPlacements V × Db V). t.1) (ok-injective h);
      }

  module _ (sql : Sql V) (db : Db V) (keys : Keys) (given : Board V) (note : Option String)
      (metadata : Option V) (max_versions : Option ℤ) (max_entries : Option ℕ)
      {r : VersionWithPlacements V} {db' : Db V}
      (h : Scores.snapshot sql db keys given note metadata max_versions max_entries
        ≡ ok (r, db')) where
    snapped : Snapped sql db keys given note metadata r db'
    snapped = snapshot-Snapped sql db keys given note metadata max_versions max_entries h

    -- When `snapshot` returns a version and the latest number of every board was the count
    -- of its versions before, it is so after.
    pub snapshot-HasNoGap : HasNoGap db.versions → HasNoGap db'.versions
    snapshot-HasNoGap gapless b =
        let c = snapped in
        let v = new_version keys c.board.id c.number note metadata in
        let number = (next_number-eq-ok db c.board.id c.next).0 in
        subst (λ (d : Db V). top d.versions b ≡ total d.versions b) c.after
          (top-append db.versions v b (omega (arith, number))
            ∙ ground (arith, gapless b, number, gapless c.board.id, num_eq_iff c.board.id b)
            ∙ sym (total-append db.versions v b))

    module _ (fresh : IsFresh db keys) where
      -- When `snapshot` returns a version, and Postgres made keys that are new and
      -- distinct, the placements of every other version stay as they were.
      pub snapshot-keeps_placements :
          keep (λ p. not (of_version keys.version_id p)) db'.placements ≡ db.placements
      snapshot-keeps_placements =
          let c = snapped in
          subst
            (λ (d : Db V).
              keep (λ p. not (of_version keys.version_id p)) d.placements ≡ db.placements)
            c.after
            (derived-keeps_placements db keys c.board.sort_direction (board_scores db c.board.id)
              c.inserted fresh)

      -- When `snapshot` returns a version, and Postgres made keys that are new and
      -- distinct, the placements of the new version are one row for each accumulated score
      -- of the board, numbered 1, 2, 3, .. in an order in which no score stands before an
      -- earlier one by the direction of the stored board, ties going by the entry's key.
      pub snapshot-ranks :
          (board : Board V) × (lock_board db given.id ≡ ok board)
          × (order : List (Placement V)) × Perm order
              (score_rows keys.version_id keys.placement_ids 0 (board_scores db given.id))
          × IsSorted (ranks_before (board.sort_direction == "asc")) order
          × Perm (keep (of_version keys.version_id) db'.placements) (numbered 1 order)
      snapshot-ranks =
          let c = snapped in
          let (order, perm, sorted, ranked) =
            derived-IsRanked db keys c.board.sort_direction (board_scores db c.board.id) c.inserted
              fresh in
          (
            c.board,
            c.locked,
            order,
            subst
                (λ i.
                  Perm order (score_rows keys.version_id keys.placement_ids 0 (board_scores db i)))
                (lock_board-id db given.id c.locked) perm,
            sorted,
            subst
                (λ (d : Db V).
                  Perm (keep (of_version keys.version_id) d.placements) (numbered 1 order))
                c.after ranked,
          )
