-- ===== src/Repo/References/Removal.antt =====
-- A reference that `create` of repo/references.rs adds, and its removal.
use mathlib.Core.Path.{subst}
use riley_leaderboards.Prelude.{
  ◌≡◌, refl, ap, ◌≢◌, Bool, true, false, not, List, [], ◌∷◌, ◌++◌, arith, num_eq, num_eq_iff, any,
  keep, All, All-imp,
}
use riley_leaderboards.Models.{
  refuse_if, ok-injective, bind-eq-ok, guard-eq-ok, foreign_key_violation, database, ok, Uuid,
  DateTime, BoardReference, CreateReference,
}
use riley_leaderboards.Db.{Db}
use riley_leaderboards.Repo.References
use riley_leaderboards.Repo.References.{
  validate_ref_type, validate_uri, validate_label, resolve_pinned, with_number, new_reference,
  is_reference,
}

-- Adding a row that no row matches, and removing the rows that match it.
pub keep-append_matched :
    {A : Type 0} (p : A → Bool) (xs : List A) (x : A)
    → All (λ y. p y ≡ false) xs
    → p x ≡ true
    → keep (λ y. not (p y)) (xs ++ x ∷ []) ≡ xs
keep-append_matched p [] x hs e = rw e
keep-append_matched p (y ∷ xs) x (h, hs) e = rw h (ap (◌∷◌ y) (keep-append_matched p xs x hs e))

pub any-append_matched :
    {A : Type 0} (p : A → Bool) (xs : List A) (x : A) → p x ≡ true → any p (xs ++ x ∷ []) ≡ true
any-append_matched p [] x e = ground arith
any-append_matched p (y ∷ xs) x e = ground (arith, any-append_matched p xs x e)

module _ {V : Type 0} where
  -- A reference that was added under a new key can be deleted, and then the tables are as they
  -- were.
  pub delete-create :
      (db : Db V) (id : Uuid) (now : DateTime) (board_id : Uuid) (input : CreateReference)
      {r : BoardReference} {db' : Db V}
      → All (λ s. s.id ≢ id) db.board_references
      → References.create db id now board_id input ≡ ok (r, db')
      → References.delete db' board_id r.id ≡ ok (tt, db)
  unfolding References.create References.delete with_number
  delete-create db id now board_id input new h =
      let (_, h) = guard-eq-ok (validate_ref_type input.ref_type) _ h in
      let (_, h) = guard-eq-ok (validate_uri input.uri) _ h in
      let (_, h) = guard-eq-ok (validate_label input.label) _ h in
      let (pinned, _, h) =
        bind-eq-ok (resolve_pinned db board_id input.pinned_version_number) _ h in
      let (_, h) =
        guard-eq-ok
          (refuse_if (not (any (λ b. num_eq b.id board_id) db.boards))
            (database foreign_key_violation))
          _ h in
      let row = new_reference id now board_id pinned input in
      let mine : is_reference board_id id row ≡ true =
        ground (arith, (num_eq_iff id id).1 refl, (num_eq_iff board_id board_id).1 refl) in
      let others : All (λ s. is_reference board_id id s ≡ false) db.board_references =
        All-imp (λ s n. ground (arith, n)) db.board_references new in
      subst (λ (t : BoardReference × Db V). References.delete t.1 board_id t.0.id ≡ ok (tt, db))
        (ok-injective h)
        (rw (
          any-append_matched (is_reference board_id id) db.board_references row mine,
          keep-append_matched (is_reference board_id id) db.board_references row others mine,
        ))
