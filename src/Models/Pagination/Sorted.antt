-- ===== src/Models/Pagination/Sorted.antt =====
-- Cutting a sorted list of rows behind one of its keys, as the pages of models.rs do.
use riley_leaderboards.Prelude.{
  ℕ, zero, suc, ◌-◌, ◌≤◌, ◌<◌, ◌≡◌, refl, sym, ap, ◌∙◌, ◌≢◌, inl, inr, Bool, true, false, some,
  List, [], ◌∷◌, ◌++◌, map, arith, ltb, Bool-cases, length, take, drop, last, keep, In, All,
  Distinct, All-In, keep-all,
}
use mathlib.Core.Path.{subst}
use riley_leaderboards.Prelude.Rank.{
  place, order_by, IsSorted, order_by-IsSorted, Distinct-map-order_by,
}

module _ {K : Type 0} where
  -- A strict total order.
  pub record IsStrictTotal (before : K → K → Bool) : Type 0 where
    pub asymm : (a b : K) → before a b ≡ true → before b a ≡ false
    pub trans : (a b c : K) → before a b ≡ true → before b c ≡ true → before a c ≡ true
    pub connex : (a b : K) → before a b ≡ false → before b a ≡ false → a ≡ b

module _ {A : Type 0} where
  pub take-take : (n m : ℕ) (xs : List A) → n ≤ m → take n (take m xs) ≡ take n xs
  take-take zero m xs h = refl
  take-take (suc n) zero xs h = absurd (omega (arith, h))
  take-take (suc n) (suc m) [] h = refl
  take-take (suc n) (suc m) (x ∷ xs) h = ap (◌∷◌ x) (take-take n m xs (omega (arith, h)))

  pub ltb-length-take :
      (n m : ℕ) (xs : List A) → n < m → ltb n (length (take m xs)) ≡ ltb n (length xs)
  ltb-length-take n zero xs h = absurd (omega (arith, h))
  ltb-length-take n (suc m) [] h = refl
  ltb-length-take zero (suc m) (x ∷ xs) h = ground arith
  ltb-length-take (suc n) (suc m) (x ∷ xs) h =
      ground (arith, ltb-length-take n m xs (omega (arith, h)))

  pub take-drop : (n : ℕ) (xs : List A) → take n xs ++ drop n xs ≡ xs
  take-drop zero xs = refl
  take-drop (suc n) [] = refl
  take-drop (suc n) (x ∷ xs) = ap (◌∷◌ x) (take-drop n xs)

  pub length-drop : (n : ℕ) (xs : List A) → length (drop n xs) ≡ length xs - n
  length-drop zero xs = omega arith
  length-drop (suc n) [] = omega arith
  length-drop (suc n) (x ∷ xs) = omega (arith, length-drop n xs)

  pub take-all : (n : ℕ) (xs : List A) → length xs ≤ n → take n xs ≡ xs
  take-all zero [] h = refl
  take-all zero (x ∷ xs) h = absurd (omega (arith, h))
  take-all (suc n) [] h = refl
  take-all (suc n) (x ∷ xs) h = ap (◌∷◌ x) (take-all n xs (omega (arith, h)))

  pub last-take :
      (n : ℕ) (xs : List A) → n < length xs → (x : A) × (last (take (suc n) xs) ≡ some x)
  last-take zero [] h = absurd (omega (arith, h))
  last-take zero (x ∷ xs) h = (x, refl)
  last-take (suc n) [] h = absurd (omega (arith, h))
  last-take (suc n) (x ∷ []) h = absurd (omega (arith, h))
  last-take (suc n) (x ∷ y ∷ xs) h = last-take n (y ∷ xs) (omega (arith, h))

  pub In-last-take : (n : ℕ) (xs : List A) {x : A} → last (take n xs) ≡ some x → In x xs
  In-last-take zero xs h = cc
  In-last-take (suc n) [] h = cc
  In-last-take (suc zero) (y ∷ xs) h = inl (cc)
  In-last-take (suc (suc n)) (y ∷ []) h = inl (cc)
  In-last-take (suc (suc n)) (y ∷ z ∷ xs) h = inr (In-last-take (suc n) (z ∷ xs) h)

  pub keep-keep :
      (p q : A → Bool) (xs : List A)
      → ((x : A) → p x ≡ true → q x ≡ true)
      → keep p (keep q xs) ≡ keep p xs
  keep-keep p q [] h = refl
  keep-keep p q (x ∷ xs) h = elim (Bool-cases (q x)) [
    | inl e ↦ elim (Bool-cases (p x)) [
      | inl d ↦ rw (e, d, keep-keep p q xs h)
      | inr d ↦ rw (e, d, keep-keep p q xs h)
    ]
    | inr e ↦ elim (Bool-cases (p x)) [
      | inl d ↦ absurd (ground (arith, h x d))
      | inr d ↦ rw (e, d, keep-keep p q xs h)
    ]
  ]

  module _ (less : A → A → Bool) (p : A → Bool)
      (upward : (x y : A) → p x ≡ true → less x y ≡ true → p y ≡ true) where
    keep-place_in :
        (x : A) (ys : List A) → p x ≡ true → keep p (place less x ys) ≡ place less x (keep p ys)
    unfolding place
    keep-place_in x [] e = rw e
    keep-place_in x (y ∷ ys) e = elim (Bool-cases (less x y)) [
      | inl d ↦ rw (d, e, upward x y e d, d)
      | inr d ↦ elim (Bool-cases (p y)) [
        | inl f ↦ rw (d, f, d, keep-place_in x ys e)
        | inr f ↦ rw (d, f, keep-place_in x ys e)
      ]
    ]

    keep-place_out : (x : A) (ys : List A) → p x ≡ false → keep p (place less x ys) ≡ keep p ys
    unfolding place
    keep-place_out x [] e = rw e
    keep-place_out x (y ∷ ys) e = elim (Bool-cases (less x y)) [
      | inl d ↦ rw (d, e)
      | inr d ↦ elim (Bool-cases (p y)) [
        | inl f ↦ rw (d, f, keep-place_out x ys e)
        | inr f ↦ rw (d, f, keep-place_out x ys e)
      ]
    ]

    -- Where what follows a kept row is kept, rows may be sorted before they are filtered.
    pub order_by-keep : (xs : List A) → order_by less (keep p xs) ≡ keep p (order_by less xs)
    unfolding order_by
    order_by-keep [] = refl
    order_by-keep (x ∷ xs) = elim (Bool-cases (p x)) [
      | inl e ↦
          rw e (ap (place less x) (order_by-keep xs) ∙ sym (keep-place_in x (order_by less xs) e))
      | inr e ↦ rw e (order_by-keep xs ∙ sym (keep-place_out x (order_by less xs) e))
    ]

module _ {A K : Type 0} (key : A → K) (before : K → K → Bool) (strict : IsStrictTotal before) where
  abbrev pub less : A → A → Bool
  less a b = before (key a) (key b)

  -- Behind a row stand only rows with larger keys.
  abbrev pub Increasing : List A → Type 0
  Increasing [] = Unit
  Increasing (x ∷ xs) = All (λ y. less x y ≡ true) xs × Increasing xs

  above :
      (x : A) (xs : List A)
      → All (λ y. less y x ≡ false) xs
      → All (λ k. k ≢ key x) (map key xs)
      → All (λ y. less x y ≡ true) xs
  above x [] h n = tt
  above x (y ∷ xs) (h, hs) (n, ns) = (
    elim (Bool-cases (less x y)) [
      | inl e ↦ e
      | inr e ↦ absurd (n (strict.connex (key y) (key x) h e))
    ],
    above x xs hs ns,
  )

  Increasing-IsSorted : (xs : List A) → IsSorted less xs → Distinct (map key xs) → Increasing xs
  Increasing-IsSorted [] s d = tt
  Increasing-IsSorted (x ∷ xs) (h, s) (n, d) = (above x xs h n, Increasing-IsSorted xs s d)

  pub Increasing-order_by : (xs : List A) → Distinct (map key xs) → Increasing (order_by less xs)
  Increasing-order_by xs d =
      Increasing-IsSorted (order_by less xs)
        (order_by-IsSorted less (λ a b. strict.asymm (key a) (key b))
          (λ a b c. strict.trans (key a) (key b) (key c)) xs)
        (Distinct-map-order_by less key xs d)

  irrefl : (a : K) → before a a ≡ false
  irrefl a = elim (Bool-cases (before a a)) [ inl e ↦ strict.asymm a a e | inr e ↦ e ]

  -- What stands behind the last of the first rows is what is left without them.
  pub keep-last-take :
      (n : ℕ) (xs : List A) (x : A)
      → Increasing xs
      → last (take (suc n) xs) ≡ some x
      → keep (λ a. before (key x) (key a)) xs ≡ drop (suc n) xs
  keep-last-take n [] x i h = cc
  keep-last-take zero (y ∷ xs) x (a, i) h =
      let same : y ≡ x = cc in
      subst (λ w. keep (λ b. before (key w) (key b)) (y ∷ xs) ≡ xs) same
        (rw (irrefl (key y)) (keep-all (less y) xs a))
  keep-last-take (suc n) (y ∷ []) x (a, i) h =
      let same : y ≡ x = cc in
      subst (λ w. keep (λ b. before (key w) (key b)) (y ∷ []) ≡ []) same (rw (irrefl (key y)))
  keep-last-take (suc n) (y ∷ z ∷ xs) x (a, i) h =
      let up = All-In (λ w. less y w ≡ true) (z ∷ xs) x a (In-last-take (suc n) (z ∷ xs) h) in
      rw (strict.asymm (key y) (key x) up) (keep-last-take n (z ∷ xs) x i h)
