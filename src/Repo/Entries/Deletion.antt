-- ===== src/Repo/Entries/Deletion.antt =====
-- When `delete` of repo/entries.rs deletes an entry, and what it leaves as it was.
use mathlib.Core.Path.{subst}
use riley_leaderboards.Prelude.{
  ℕ, ◌+◌, String, ◌≡◌, refl, ap, ◌≢◌, ◌↔◌, inl, inr, true, List, [], ◌∷◌, map, arith, ltb, num_eq,
  Bool-cases, any, keep, All, All-imp, keep-all, keep-none,
}
use riley_leaderboards.Models.{
  refuse_if, ok-injective, bind-eq-ok, guard-eq-ok, refuse_if-eq-ok, entry_has_placements, conflict,
  ok, Uuid, Entry, Placement,
}
use riley_leaderboards.Db.{Db}
use riley_leaderboards.Repo.Entries
use riley_leaderboards.Repo.Entries.{
  count_distinct, find_entry, get_by_slug, version_count, cascade_entry,
}

count_distinct-zero : (is : List ℕ) → count_distinct is ≡ 0 → is ≡ []
count_distinct-zero [] h = refl
count_distinct-zero (i ∷ is) h = elim (Bool-cases (any (λ j. num_eq j i) is)) [
  | inl e ↦ absurd (any-nil i is e (count_distinct-zero is (rw e at h)))
  | inr e ↦ absurd (positive (count_distinct is) (rw e at h))
]
  where
    positive : (n : ℕ) → n + 1 ≢ 0
    positive n h = omega (arith, h)

    any-nil : (i : ℕ) (is : List ℕ) → any (λ j. num_eq j i) is ≡ true → is ≢ []
    any-nil i [] e = cc
    any-nil i (j ∷ is) e = λ q. cc

module _ {V : Type 0} where
  -- The entry has no placement.
  abbrev pub Unplaced : Uuid → List (Placement V) → Type 0
  Unplaced id ps = All (λ p. p.entry_id ≢ id) ps

  count-Unplaced :
      (id : Uuid) (ps : List (Placement V))
      → count_distinct (map (λ p. p.version_id) (keep (λ p. num_eq p.entry_id id) ps)) ≡ 0
      → Unplaced id ps
  count-Unplaced id ps h =
      none_kept ps (nil (keep (λ p. num_eq p.entry_id id) ps) (count_distinct-zero _ h))
    where
      nil : (qs : List (Placement V)) → map (λ p. p.version_id) qs ≡ [] → qs ≡ []
      nil [] e = refl
      nil (q ∷ qs) e = cc

      none_kept :
          (qs : List (Placement V)) → keep (λ p. num_eq p.entry_id id) qs ≡ [] → Unplaced id qs
      none_kept [] e = tt
      none_kept (q ∷ qs) e = elim (Bool-cases (num_eq q.entry_id id)) [
        | inl d ↦ absurd (cons-nil (rw d at e))
        | inr d ↦ (ground (arith, d), none_kept qs (rw d at e))
      ]
        where
          cons-nil : {x : Placement V} {xs : List (Placement V)} → x ∷ xs ≢ []
          cons-nil = cc

  Unplaced-count :
      (id : Uuid) (ps : List (Placement V))
      → Unplaced id ps
      → count_distinct (map (λ p. p.version_id) (keep (λ p. num_eq p.entry_id id) ps)) ≡ 0
  Unplaced-count id ps h =
      rw (keep-none (λ p. num_eq p.entry_id id) ps (All-imp (λ p n. ground (arith, n)) ps h))

  -- An entry that the board has under the slug is deleted, with its cascade, exactly when no
  -- version has a placement of it.
  pub delete_iff :
      (db : Db V) (board_id : Uuid) (slug : String) (e : Entry V)
      → get_by_slug db board_id slug ≡ ok e
      → (Entries.delete db board_id slug ≡ ok (tt, cascade_entry e.id db))
        ↔ Unplaced e.id db.placements
  unfolding Entries.delete version_count
  delete_iff db board_id slug e found = rw found (
      (
        λ h. count-Unplaced e.id db.placements (
            ground (
              arith,
              (guard-eq-ok
                  (refuse_if (ltb 0 (version_count db e.id))
                    (conflict (entry_has_placements slug (version_count db e.id))))
                  _ h).0,
            )),
        λ u. rw (Unplaced-count e.id db.placements u),
      ))

  -- A `delete` of an entry that returns has changed no version: the placements, the versions
  -- and the boards stay.
  pub delete-keeps_placements :
      (db : Db V) (board_id : Uuid) (slug : String) {db' : Db V}
      → Entries.delete db board_id slug ≡ ok (tt, db')
      → (db'.placements ≡ db.placements) × (db'.versions ≡ db.versions) × (db'.boards ≡ db.boards)
  unfolding Entries.delete
  delete-keeps_placements db board_id slug {db'} h =
      let (e, found, k) = bind-eq-ok (get_by_slug db board_id slug) _ h in
      let (free, k) = guard-eq-ok (refuse_if (ltb 0 (version_count db e.id)) _) _ k in
      let same : cascade_entry e.id db ≡ db' = ap (λ (t : Unit {0} × Db V). t.1) (ok-injective k) in
      let unplaced =
        count-Unplaced e.id db.placements
          (unfold version_count in ground (arith, refuse_if-eq-ok _ _ free)) in
      subst
        (λ (d : Db V).
          (d.placements ≡ db.placements) × (d.versions ≡ db.versions) × (d.boards ≡ db.boards))
        same
        (
          keep-all _ db.placements (All-imp (λ p n. ground (arith, n)) db.placements unplaced),
          refl,
          refl,
        )
