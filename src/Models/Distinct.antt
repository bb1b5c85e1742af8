-- ===== src/Models/Distinct.antt =====
-- The loop `for x in xs { if !seen.insert(x) { return Err(..) } }`, which several checks share.
use riley_leaderboards.Prelude.{
  ◌≡◌, refl, sym, ◌≢◌, ◌↔◌, Bool, true, false, List, [], ◌∷◌, arith, any, All, Distinct, All-imp,
}
use riley_leaderboards.Models.{
  Message, Result, ◌>>◌, refuse_if, guard-eq-ok, refuse_if-eq-ok, validation, ok,
}

module _ {A : Type 0} (eq : A → A → Bool) (message : A → Message) where
  unfoldable pub check_distinct : List A → List A → Result (Unit {0})
  check_distinct seen [] = ok tt
  check_distinct seen (x ∷ xs) = do
    refuse_if (any (λ y. eq y x) seen) (validation (message x))
    check_distinct (x ∷ seen) xs

  module _ (eq_iff : (a b : A) → (eq a b ≡ true) ↔ (a ≡ b)) where
    any-All_ne : (x : A) (seen : List A) → (any (λ y. eq y x) seen ≡ false) ↔ All (λ y. y ≢ x) seen
    any-All_ne x [] = ground arith
    any-All_ne x (y ∷ seen) = ground (arith, eq_iff y x, any-All_ne x seen)

    Apart : List A → List A → Type 0
    Apart seen xs = All (λ x. All (λ y. y ≢ x) seen) xs

    Apart-cons :
        (x : A) (seen xs : List A) → All (λ y. y ≢ x) xs → Apart seen xs → Apart (x ∷ seen) xs
    unfolding Apart
    Apart-cons x seen [] hs gs = tt
    Apart-cons x seen (y ∷ xs) (h, hs) (g, gs) = ((λ q. h (sym q), g), Apart-cons x seen xs hs gs)

    check_distinct_sound :
        (seen xs : List A) → check_distinct seen xs ≡ ok tt → Distinct xs × Apart seen xs
    unfolding check_distinct Apart
    check_distinct_sound seen [] h = (tt, tt)
    check_distinct_sound seen (x ∷ xs) h =
        let (new, h) =
          guard-eq-ok (refuse_if (any (λ y. eq y x) seen) (validation (message x))) _ h in
        let (distinct, apart) = check_distinct_sound (x ∷ seen) xs h in
        (
          (All-imp (λ y g q. g.0 (sym q)) xs apart, distinct),
          ((any-All_ne x seen).0 (refuse_if-eq-ok _ _ new), All-imp (λ y g. g.1) xs apart),
        )

    check_distinct_complete :
        (seen xs : List A) → Distinct xs → Apart seen xs → check_distinct seen xs ≡ ok tt
    unfolding check_distinct Apart
    check_distinct_complete seen [] d a = refl
    check_distinct_complete seen (x ∷ xs) (n, d) (new, a) =
        rw ((any-All_ne x seen).1 new)
          (check_distinct_complete (x ∷ seen) xs d (unfold Apart in Apart-cons x seen xs n a))

    Apart-nil : (xs : List A) → Apart [] xs
    unfolding Apart
    Apart-nil [] = tt
    Apart-nil (x ∷ xs) = (tt, Apart-nil xs)

    pub check_distinct_iff : (xs : List A) → (check_distinct [] xs ≡ ok tt) ↔ Distinct xs
    check_distinct_iff xs =
        (λ h. (check_distinct_sound [] xs h).0, λ d. check_distinct_complete [] xs d (Apart-nil xs))
