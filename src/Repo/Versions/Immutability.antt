-- ===== src/Repo/Versions/Immutability.antt =====
-- What `create` of repo/versions.rs changes, and what it leaves as it was.
use mathlib.Core.Path.{subst}
use mathlib.Core.List.{append-nil}
use riley_leaderboards.Prelude.{
  ℕ, ◌+◌, ◌≤◌, ◌<◌, ◌≡◌, refl, sym, ap, ◌∙◌, ◌≢◌, ◌⊎◌, inl, inr, Bool, true, not, Option, List, [],
  ◌∷◌, ◌++◌, map, arith, ◌==◌, num_eq, num_eq_iff, Bool-cases, keep, All, ℤ, max_i32, Distinct,
  All-imp, find-passes, keep-append, keep-all, keep-none, Distinct-map_join,
}
use riley_leaderboards.Models.{
  ok-injective, bind-eq-ok, ok_or-eq-ok, ok, Uuid, Board, Version, Placement, CreateVersion,
  PlacementWithEntry, VersionWithPlacements,
}
use riley_leaderboards.Models.Json.{Json}
use riley_leaderboards.Db.{Db}
use riley_leaderboards.Repo.Versions
use riley_leaderboards.Repo.Versions.{
  Keys, new_version, next_number, add_version, lock_board, derived, finish,
}
use riley_leaderboards.Repo.Versions.Created.{Created, create-Created}
use riley_leaderboards.Repo.Versions.Numbers.{
  top, total, HasNoGap, All-le_top, top-append, total-append, next_number-eq-ok,
}
use riley_leaderboards.Repo.Versions.Placements.{Sql, fetch_placements}
use riley_leaderboards.Repo.Versions.Placements.Inserted.{
  insert_placements-eq-ok, Placed-version, Placed-ids, Placed-Distinct,
}
use riley_leaderboards.Repo.Versions.Positions.{of_version}
use riley_leaderboards.Repo.Versions.Positions.Ranking.{derive-keeps_others}

pub lock_board-id :
    {V : Type 0} (db : Db V) (id : Uuid) {b : Board V} → lock_board db id ≡ ok b → b.id ≡ id
unfolding lock_board
lock_board-id db id {b} h =
    (num_eq_iff b.id id).0 (find-passes (λ c. num_eq c.id id) db.boards (ok_or-eq-ok _ _ h))

module _ (json : Json) (sql : Sql json.Value) where
  -- The tables of a version that was finished: those before, or with the positions derived.
  finish-eq-ok :
      (board : Board json.Value) (v : Version json.Value)
      (rows : List (PlacementWithEntry json.Value)) (db : Db json.Value)
      {r : VersionWithPlacements json.Value} {db' : Db json.Value}
      → finish json sql board v rows db ≡ ok (r, db')
      → (r.version ≡ v) × ((derived json sql board v db ≡ db') ⊎ (db ≡ db'))
  finish-eq-ok board v rows db h = elim (Bool-cases (board.board_type == "scored")) [
    | inl e ↦
        let (ranked, _, h) =
          bind-eq-ok (fetch_placements sql (derived json sql board v db) v.id) _ (rw e at h) in
        let same = ok-injective h in
        (
          sym (ap (λ (t : VersionWithPlacements json.Value × Db json.Value). t.0.version) same),
          inl (ap (λ (t : VersionWithPlacements json.Value × Db json.Value). t.1) same),
        )
    | inr e ↦
        let same = ok-injective (rw e at h) in
        (
          sym (ap (λ (t : VersionWithPlacements json.Value × Db json.Value). t.0.version) same),
          inr (ap (λ (t : VersionWithPlacements json.Value × Db json.Value). t.1) same),
        )
  ]

  finish-frame :
      (board : Board json.Value) (v : Version json.Value)
      (rows : List (PlacementWithEntry json.Value)) (db : Db json.Value)
      {r : VersionWithPlacements json.Value} {db' : Db json.Value}
      → finish json sql board v rows db ≡ ok (r, db')
      → (r.version ≡ v) × (record db { placements = db'.placements } ≡ db')
  finish-frame board v rows db h =
      let (version, tables) = finish-eq-ok board v rows db h in
      (
        version,
        elim tables [
          | inl e ↦
              subst (λ (d : Db json.Value). record db { placements = d.placements } ≡ d) e refl
          | inr e ↦
              subst (λ (d : Db json.Value). record db { placements = d.placements } ≡ d) e refl
        ],
      )

  finish-others :
      (board : Board json.Value) (v : Version json.Value)
      (rows : List (PlacementWithEntry json.Value)) (db : Db json.Value)
      {r : VersionWithPlacements json.Value} {db' : Db json.Value}
      → Distinct (map (λ p. p.id) db.placements)
      → finish json sql board v rows db ≡ ok (r, db')
      → keep (λ p. not (of_version v.id p)) db'.placements
        ≡ keep (λ p. not (of_version v.id p)) db.placements
  finish-others board v rows db ids h = elim (finish-eq-ok board v rows db h).1 [
    | inl e ↦
        ap (λ (d : Db json.Value). keep (λ p. not (of_version v.id p)) d.placements) (sym e)
        ∙ derive-keeps_others v.id board.sort_direction db.placements ids
    | inr e ↦ ap (λ (d : Db json.Value). keep (λ p. not (of_version v.id p)) d.placements) (sym e)
  ]

  module _ (db : Db json.Value) (keys : Keys) (given : Board json.Value)
      (input : CreateVersion json.Value) (max_versions : Option ℤ)
      {r : VersionWithPlacements json.Value} {db' : Db json.Value}
      (h : Versions.create json sql db keys given input max_versions ≡ ok (r, db')) where
    created : Created json sql db keys given input max_versions r db'
    created = create-Created json sql db keys given input max_versions h

    the_version :
        r.version ≡ new_version keys created.board.id created.number input.note input.metadata
    the_version = (finish-frame created.board _ created.rows _ created.finished).0

    the_frame :
        record db { versions = db.versions ++ r.version ∷ []; placements = db'.placements } ≡ db'
    the_frame =
        let c = created in
        let v = new_version keys c.board.id c.number input.note input.metadata in
        subst
          (λ w. record db { versions = db.versions ++ w ∷ []; placements = db'.placements } ≡ db')
          (sym the_version)
          (finish-frame c.board v c.rows (record (add_version db v) { placements = c.table })
            c.finished).1

    -- When `create` returns a version, that is one more row of the board that was given,
    -- with the next number: an `integer` above the number of every version of the board.
    -- Nothing but the placements changes besides.
    pub create-appends :
        (r.version.board_id ≡ given.id)
        × (r.version.version_number ≡ top db.versions given.id + 1)
        × (r.version.version_number ≤ max_i32)
        × All (λ v. v.board_id ≡ given.id → v.version_number < r.version.version_number) db.versions
        × (db'
            ≡ record db { versions = db.versions ++ r.version ∷ []; placements = db'.placements })
    create-appends =
        let c = created in
        let board_id = lock_board-id db given.id c.locked in
        let number_eq =
          ap (λ (v : Version json.Value). v.version_number) the_version
          ∙ (next_number-eq-ok db c.board.id c.next).0
          ∙ ap (λ i. top db.versions i + 1) board_id in
        let fits = (next_number-eq-ok db c.board.id c.next).1 in
        (
          ap (λ (v : Version json.Value). v.board_id) the_version ∙ board_id,
          number_eq,
          rw (the_version) fits,
          All-imp (λ v le e. rw number_eq (omega (arith, le e))) db.versions
              (All-le_top db.versions given.id),
          sym the_frame,
        )

    -- When `create` returns a version and the latest number of every board was the count of
    -- its versions before, it is so after.
    pub create-HasNoGap : HasNoGap db.versions → HasNoGap db'.versions
    create-HasNoGap gapless b =
        let (of_board, number, _, _, _) = create-appends in
        let above : top db.versions r.version.board_id < r.version.version_number =
          rw of_board (omega (arith, number)) in
        subst (λ (d : Db json.Value). top d.versions b ≡ total d.versions b) the_frame
          (top-append db.versions r.version b above
            ∙ ground (
              arith,
              gapless b,
              number,
              gapless given.id,
              of_board,
              num_eq_iff r.version.board_id b,
            )
            ∙ sym (total-append db.versions r.version b))

    -- The keys of placements are new, and no two are equal.
    pub record AreFresh : Type 0 where
      pub version : All (λ p. not (of_version keys.version_id p) ≡ true) db.placements
      pub placements : (i : ℕ) → All (λ p. p.id ≢ keys.placement_ids i) db.placements
      pub apart : (i j : ℕ) → i < j → keys.placement_ids i ≢ keys.placement_ids j
      pub distinct : Distinct (map (λ p. p.id) db.placements)

    -- The table with the new rows, before the positions are derived.
    table_facts :
        AreFresh
        → Distinct (map (λ p. p.id) created.table)
          × (keep (λ p. not (of_version keys.version_id p)) created.table ≡ db.placements)
    table_facts fresh =
        let c = created in
        let ids = keys.placement_ids in
        let (new, appended, placed) =
          insert_placements-eq-ok c.board keys.version_id ids db.entries 0 input.placements
            db.placements c.rows c.table c.inserted in
        let others : Placement json.Value → Bool = λ p. not (of_version keys.version_id p) in
        (
          subst (λ l. Distinct (map (λ p. p.id) l)) (sym appended)
              (Distinct-map_join (λ p. p.id) db.placements new fresh.distinct
                (Placed-Distinct c.board keys.version_id ids db.entries fresh.apart 0
                  input.placements new c.rows placed)
                (All-imp
                  (λ q g. All-imp (λ p n e. n (e ∙ g.2)) db.placements (fresh.placements g.0)) new
                  (Placed-ids c.board keys.version_id ids db.entries 0 input.placements new c.rows
                    placed))),
          ap (keep others) appended
              ∙ keep-append others db.placements new
              ∙ ap (λ l. l ++ keep others new) (keep-all others db.placements fresh.version)
              ∙ ap (λ l. db.placements ++ l)
                  (keep-none others new (
                    All-imp (λ q e. ap not ((num_eq_iff _ _).1 e)) new
                      (Placed-version c.board keys.version_id ids db.entries 0 input.placements new
                        c.rows placed)))
              ∙ append-nil db.placements,
        )

    -- When `create` returns a version, and Postgres made keys that are new and distinct, the
    -- placements of every other version stay as they were.
    pub create-keeps_placements :
        AreFresh → keep (λ p. not (of_version keys.version_id p)) db'.placements ≡ db.placements
    create-keeps_placements fresh =
        let c = created in
        let v = new_version keys c.board.id c.number input.note input.metadata in
        let (ids, kept) = table_facts fresh in
        finish-others c.board v c.rows (record (add_version db v) { placements = c.table }) ids
          c.finished
        ∙ kept
