-- ===== src/Prelude/Rank.antt =====
-- Sorting rows by a Boolean order (an `ORDER BY`), and what the sorted list is.
use Prim.Native.Nat.{suc}
use mathlib.Core.Path.{◌≡◌, refl, sym, ap, ◌∙◌}
use mathlib.Core.Logic.{◌≢◌, inl, inr}
use mathlib.Core.Bool.{Bool, true, false}
use mathlib.Core.List.{List, [], ◌∷◌, map, Perm}
use mathlib.Core.List.Perm
use native.Mathlib.Omega.{arith}
use riley_leaderboards.Prelude.Tests.{if◌then◌else◌, Bool-cases}
use riley_leaderboards.Prelude.Lists.{All, length}
use riley_leaderboards.Prelude.Members.{All-imp, Distinct}

module _ {A : Type 0} (before : A → A → Bool) where
  -- `x` goes in front of the first row that it stands before.
  unfoldable pub place : A → List A → List A
  place x [] = x ∷ []
  place x (y ∷ ys) = if before x y then x ∷ y ∷ ys else y ∷ place x ys

  unfoldable pub order_by : List A → List A
  order_by [] = []
  order_by (x ∷ xs) = place x (order_by xs)

  -- No row stands before an earlier one.
  abbrev pub IsSorted : List A → Type 0
  IsSorted [] = Unit
  IsSorted (x ∷ xs) = All (λ y. before y x ≡ false) xs × IsSorted xs

  All-place : (P : A → Type 0) (x : A) (ys : List A) → P x → All P ys → All P (place x ys)
  unfolding place
  All-place P x [] p hs = (p, tt)
  All-place P x (y ∷ ys) p (h, hs) = elim (Bool-cases (before x y)) [
    | inl e ↦ rw e (p, (h, hs))
    | inr e ↦ rw e (h, All-place P x ys p hs)
  ]

  module _ {B : Type 0} (f : A → B) where
    All-map_place :
        (P : B → Type 0) (x : A) (ys : List A)
        → P (f x)
        → All P (map f ys)
        → All P (map f (place x ys))
    unfolding place
    All-map_place P x [] p hs = (p, tt)
    All-map_place P x (y ∷ ys) p (h, hs) = elim (Bool-cases (before x y)) [
      | inl e ↦ rw e (p, (h, hs))
      | inr e ↦ rw e (h, All-map_place P x ys p hs)
    ]

    Distinct-map-place :
        (x : A) (ys : List A)
        → All (λ b. b ≢ f x) (map f ys)
        → Distinct (map f ys)
        → Distinct (map f (place x ys))
    unfolding place
    Distinct-map-place x [] ns d = (tt, tt)
    Distinct-map-place x (y ∷ ys) (n, ns) (k, d) = elim (Bool-cases (before x y)) [
      | inl e ↦ rw e ((n, ns), (k, d))
      | inr e ↦
          rw e (All-map_place (λ b. b ≢ f y) x ys (λ q. n (sym q)) k, Distinct-map-place x ys ns d)
    ]

    pub All-map_order_by :
        (P : B → Type 0) (xs : List A) → All P (map f xs) → All P (map f (order_by xs))
    unfolding order_by
    All-map_order_by P [] hs = tt
    All-map_order_by P (x ∷ xs) (h, hs) =
        All-map_place P x (order_by xs) h (All-map_order_by P xs hs)

    -- Sorting keeps the keys distinct.
    pub Distinct-map-order_by : (xs : List A) → Distinct (map f xs) → Distinct (map f (order_by xs))
    unfolding order_by
    Distinct-map-order_by [] d = tt
    Distinct-map-order_by (x ∷ xs) (k, d) =
        Distinct-map-place x (order_by xs) (All-map_order_by (λ b. b ≢ f x) xs k)
          (Distinct-map-order_by xs d)

  place-perm : (x : A) (ys : List A) → Perm (place x ys) (x ∷ ys)
  unfolding place
  place-perm x [] = Perm.refl (x ∷ [])
  place-perm x (y ∷ ys) = elim (Bool-cases (before x y)) [
    | inl e ↦ rw e (Perm.refl (x ∷ y ∷ ys))
    | inr e ↦ rw e (Perm.trans (Perm.cons y (place-perm x ys)) (Perm.swap x y ys))
  ]

  pub order_by-perm : (xs : List A) → Perm (order_by xs) xs
  unfolding order_by
  order_by-perm [] = Perm.refl []
  order_by-perm (x ∷ xs) = Perm.trans (place-perm x (order_by xs)) (Perm.cons x (order_by-perm xs))

  length-place : (x : A) (ys : List A) → length (place x ys) ≡ suc (length ys)
  unfolding place
  length-place x [] = refl
  length-place x (y ∷ ys) = elim (Bool-cases (before x y)) [
    | inl e ↦ rw e
    | inr e ↦ rw e (ap suc (length-place x ys))
  ]

  pub length-order_by : (xs : List A) → length (order_by xs) ≡ length xs
  unfolding order_by
  length-order_by [] = refl
  length-order_by (x ∷ xs) = length-place x (order_by xs) ∙ ap suc (length-order_by xs)

  module _ (asymmetric : (x y : A) → before x y ≡ true → before y x ≡ false)
      (transitive : (x y z : A) → before x y ≡ true → before y z ≡ true → before x z ≡ true) where
    place-IsSorted : (x : A) (ys : List A) → IsSorted ys → IsSorted (place x ys)
    unfolding place
    place-IsSorted x [] s = (tt, tt)
    place-IsSorted x (y ∷ ys) (h, s) = elim (Bool-cases (before x y)) [
      | inl e ↦ rw e ((asymmetric x y e, All-imp (λ z k. behind z k e) ys h), (h, s))
      | inr e ↦ rw e (All-place (λ z. before z y ≡ false) x ys e h, place-IsSorted x ys s)
    ]
      where
        behind : (z : A) → before z y ≡ false → before x y ≡ true → before z x ≡ false
        behind z k e = elim (Bool-cases (before z x)) [
          | inl q ↦ ground (arith, transitive z x y q e)
          | inr q ↦ q
        ]

    -- The sorted list is sorted.
    pub order_by-IsSorted : (xs : List A) → IsSorted (order_by xs)
    unfolding order_by
    order_by-IsSorted [] = tt
    order_by-IsSorted (x ∷ xs) = place-IsSorted x (order_by xs) (order_by-IsSorted xs)
