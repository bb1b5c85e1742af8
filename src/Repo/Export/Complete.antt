-- ===== src/Repo/Export/Complete.antt =====
-- What an export of crates/riley-leaderboards-core/src/repo/export.rs holds: the one query for all
-- versions against a query for each version.
use mathlib.Core.Path.{subst}
use mathlib.Core.List.{Perm}
use mathlib.Core.List.Perm
use riley_leaderboards.Prelude.{
  String, ◌≡◌, refl, sym, ap, ◌∙◌, ◌⊎◌, inl, inr, Bool, true, false, List, [], ◌∷◌, map, arith,
  num_eq, Bool-cases, any, keep, In, Distinct, Distinct-map-keep,
}
use riley_leaderboards.Prelude.Rank.{place, order_by, order_by-perm, Distinct-map-order_by}
use riley_leaderboards.Models.{
  invalid_value, database, ok, err, Uuid, Board, Version, PlacementWithEntry,
}
use riley_leaderboards.Db.{Db}
use riley_leaderboards.Repo.Boards
use riley_leaderboards.Repo.Boards.{get_by_slug}
use riley_leaderboards.Repo.Versions
use riley_leaderboards.Repo.Versions.{list}
use riley_leaderboards.Repo.Versions.Placements.{
  Sql, join_entries, listed_before, run_tier_queries, fetch_placements,
}
use riley_leaderboards.Repo.Export.{
  BoardExport, board_export_meta, placement_export, numbered, exported_before, board_tiers,
  all_placements, group_placements, version_export, version_exports, sort_versions, export_board,
}
use riley_leaderboards.Repo.Export.Reads.{
  keep-numbered, any-numbered, any-rows_of, rows_of, is_refused, fetch_placements-eq,
}
use riley_leaderboards.Repo.Export.Groups.{version_exports-group_placements}

-- Sorting rows and then keeping those that pass a test keeps each as often as it was there.
module _ {A : Type 0} (before : A → A → Bool) (p : A → Bool) where
  keep_cons :
      (x : A) (xs ys : List A)
      → Perm (keep p xs) (keep p ys)
      → Perm (keep p (x ∷ xs)) (keep p (x ∷ ys))
  keep_cons x xs ys h = elim (Bool-cases (p x)) [
    | inl e ↦ rw (e) (Perm.cons x h)
    | inr e ↦ rw (e) h
  ]

  keep_swap : (x y : A) (xs : List A) → Perm (keep p (y ∷ x ∷ xs)) (keep p (x ∷ y ∷ xs))
  keep_swap x y xs = elim (Bool-cases (p x)) [
    | inl e ↦ elim (Bool-cases (p y)) [
      | inl f ↦ rw (e, f) (Perm.swap x y (keep p xs))
      | inr f ↦ rw (e, f) (Perm.refl (x ∷ keep p xs))
    ]
    | inr e ↦ rw (e) (Perm.refl (keep p (y ∷ xs)))
  ]

  keep_place-perm : (x : A) (ys : List A) → Perm (keep p (place before x ys)) (keep p (x ∷ ys))
  unfolding place
  keep_place-perm x [] = Perm.refl (keep p (x ∷ []))
  keep_place-perm x (y ∷ ys) = elim (Bool-cases (before x y)) [
    | inl e ↦ rw e (Perm.refl (keep p (x ∷ y ∷ ys)))
    | inr e ↦ rw e (Perm.trans (keep_cons y _ (x ∷ ys) (keep_place-perm x ys)) (keep_swap x y ys))
  ]

  keep_order_by-perm : (xs : List A) → Perm (keep p (order_by before xs)) (keep p xs)
  unfolding order_by
  keep_order_by-perm [] = Perm.refl []
  keep_order_by-perm (x ∷ xs) =
      Perm.trans (keep_place-perm x (order_by before xs)) (keep_cons x _ xs (keep_order_by-perm xs))

module _ {A B : Type 0} (f : A → B) (p : B → Bool) where
  keep-map : (xs : List A) → keep p (map f xs) ≡ map f (keep (λ x. p (f x)) xs)
  keep-map [] = refl
  keep-map (x ∷ xs) = let rest = keep-map xs in ground arith

module _ {A B : Type 0} (before : A → A → Bool) (f : A → B) (p : B → Bool) where
  keep_map_order_by-perm :
      (xs : List A) → Perm (keep p (map f (order_by before xs))) (map f (keep (λ x. p (f x)) xs))
  keep_map_order_by-perm xs =
      rw (keep-map f p (order_by before xs))
        (Perm.map f (keep_order_by-perm before (λ x. p (f x)) xs))

module _ {V : Type 0} where
  Distinct-map-list :
      (db : Db V) (board_id : Uuid)
      → Distinct (map (λ v. v.id) db.versions)
      → Distinct (map (λ v. v.id) (Versions.list db board_id))
  unfolding Versions.list
  Distinct-map-list db board_id d =
      Distinct-map-order_by _ (λ v. v.id) _ (Distinct-map-keep (λ v. v.id) _ db.versions d)

  -- What the one query for all versions of the board lists, when it is not refused.
  abbrev listed : Sql V → Db V → Uuid → List (PlacementWithEntry V)
  listed sql db board_id =
      map (λ x. x.1)
        (order_by (exported_before sql (board_tiers db board_id))
          (numbered db.versions board_id (join_entries db.entries db.placements)))

  abbrev joined : Db V → Uuid → List (PlacementWithEntry V)
  joined db board_id =
      map (λ x. x.1) (numbered db.versions board_id (join_entries db.entries db.placements))

  listed-perm :
      (sql : Sql V) (db : Db V) (v : Version V)
      → In v db.versions
      → Perm (rows_of v.id (listed sql db v.board_id)) (
          order_by
            (listed_before sql (board_tiers db v.board_id))
            (rows_of v.id (join_entries db.entries db.placements)))
  listed-perm sql db v m =
      let rows = join_entries db.entries db.placements in
      Perm.trans (keep_map_order_by-perm _ (λ x. x.1) (λ p. num_eq p.version_id v.id) _)
        (rw (keep-numbered db.versions v m rows) (Perm.symm (order_by-perm _ _)))

  -- The export shows the board's settings and its versions, sorted by number, each with the
  -- placements that reading the version by itself gives, as often as there.
  pub record HoldsAll (sql : Sql V) (db : Db V) (board : Board V) (e : BoardExport V) : Type 0 where
    pub board_meta : e.board ≡ board_export_meta board
    pub rows : Version V → List (PlacementWithEntry V)
    pub versions :
        e.versions
        ≡ sort_versions (
            map (λ v. version_export v (map placement_export (rows v))) (Versions.list db board.id))
    pub placements :
        (v : Version V)
        → In v db.versions
        → v.board_id ≡ board.id
        → (ps : List (PlacementWithEntry V)) × (fetch_placements sql db v.id ≡ ok ps)
          × Perm (rows v) ps

  module _ (sql : Sql V) (db : Db V) (board : Board V)
      (d : Distinct (map (λ v. v.id) db.versions)) where
    export_of : List (PlacementWithEntry V) → BoardExport V
    export_of placements = record {
      board = board_export_meta board;
      versions =
          sort_versions
            (version_exports (group_placements placements []) (Versions.list db board.id));
    }

    reads_all :
        any (is_refused sql (board_tiers db board.id)) (joined db board.id) ≡ false
        → (v : Version V) → In v db.versions
        → v.board_id ≡ board.id
        → (ps : List (PlacementWithEntry V)) × (fetch_placements sql db v.id ≡ ok ps)
          × Perm (rows_of v.id (listed sql db board.id)) ps
    reads_all fine v m own =
        let tiers = board_tiers db v.board_id in
        let all = join_entries db.entries db.placements in
        let fine' =
          subst (λ i. any (is_refused sql (board_tiers db i)) (joined db i) ≡ false) (sym own)
            fine in
        (
          order_by (listed_before sql tiers) (rows_of v.id all),
          fetch_placements-eq sql db v d m
              ∙ rw (any-rows_of (is_refused sql tiers) db.versions v all m fine') refl,
          subst
              (λ i.
                Perm (rows_of v.id (listed sql db i))
                  (order_by (listed_before sql tiers) (rows_of v.id all)))
              own (listed-perm sql db v m),
        )

    HoldsAll-export_of :
        any (is_refused sql (board_tiers db board.id)) (joined db board.id) ≡ false
        → HoldsAll sql db board (export_of (listed sql db board.id))
    unfolding export_of
    HoldsAll-export_of fine = record {
      board_meta = refl;
      rows = λ v. rows_of v.id (listed sql db board.id);
      versions = ap sort_versions (
          version_exports-group_placements (listed sql db board.id) (Versions.list db board.id)
            (Distinct-map-list db board.id d));
      placements = reads_all fine;
    }

    unread :
        any (is_refused sql (board_tiers db board.id)) (joined db board.id) ≡ true
        → (v : Version V) × In v db.versions
          × (v.board_id ≡ board.id)
          × (fetch_placements sql db v.id ≡ err (database invalid_value))
    unread h =
        let (v, m, own, found) =
          any-numbered (is_refused sql (board_tiers db board.id)) db.versions board.id
            (join_entries db.entries db.placements) h in
        let refused =
          subst
            (λ i.
              any (is_refused sql (board_tiers db i))
                (rows_of v.id (join_entries db.entries db.placements))
              ≡ true)
            (sym own) found in
        (v, m, own, fetch_placements-eq sql db v d m ∙ rw refused refl)

    -- Where the versions have distinct keys and a board has the slug, either its export is given
    -- and complete: it shows the board's settings and its versions, sorted by number, each with
    -- the placements that reading the version by itself gives, as often as there; or Postgres
    -- refuses the query, and then also that for some version of the board by itself.
    pub export_board_complete :
        (slug : String)
        → Boards.get_by_slug db slug ≡ ok board
        → ((e : BoardExport V) × (export_board sql db slug ≡ ok e) × HoldsAll sql db board e)
          ⊎ ((export_board sql db slug ≡ err (database invalid_value))
              × (v : Version V) × In v db.versions
              × (v.board_id ≡ board.id)
              × (fetch_placements sql db v.id ≡ err (database invalid_value)))
    unfolding export_board all_placements run_tier_queries export_of
    export_board_complete slug h =
        elim (Bool-cases (any (is_refused sql (board_tiers db board.id)) (joined db board.id))) [
          | inl e ↦ let (v, m, own, refused) = unread e in inr (rw (h, e) refl, v, m, own, refused)
          | inr e ↦ inl (export_of (listed sql db board.id), rw (h, e) refl, HoldsAll-export_of e)
        ]
