-- ===== src/Prelude/Members.antt =====
-- Members of lists: what searches find, and what filters and appends keep.
use mathlib.Core.Path.{◌≡◌, refl, sym, ap, ◌∙◌}
use mathlib.Core.Logic.{◌≢◌, inl, inr}
use mathlib.Core.Bool.{Bool, true, false}
use mathlib.Core.Option.{some}
use mathlib.Core.List.{List, [], ◌∷◌, ◌++◌, map}
use native.Mathlib.Omega.{arith}
use riley_leaderboards.Prelude.Tests.{Bool-cases}
use riley_leaderboards.Prelude.Lists.{In, All, any, keep, find}

-- No value stands twice in the list.
abbrev pub Distinct : {A : Type 0} → List A → Type 0
Distinct [] = Unit
Distinct (x ∷ xs) = All (λ y. y ≢ x) xs × Distinct xs

module _ {A : Type 0} where
  pub All-In : (P : A → Type 0) (xs : List A) (x : A) → All P xs → In x xs → P x
  All-In P [] x hs m = elim m [ ]
  All-In P (y ∷ xs) x (h, hs) (inl e) = rw e h
  All-In P (y ∷ xs) x (h, hs) (inr m) = All-In P xs x hs m

  pub All-of-In : {P : A → Type 0} (xs : List A) → ((x : A) → In x xs → P x) → All P xs
  All-of-In [] h = tt
  All-of-In (x ∷ xs) h = (h x (inl refl), All-of-In xs (λ y m. h y (inr m)))

  pub All-imp : {P Q : A → Type 0} → ((x : A) → P x → Q x) → (xs : List A) → All P xs → All Q xs
  All-imp h [] hs = tt
  All-imp h (x ∷ xs) (p, hs) = (h x p, All-imp h xs hs)

  pub In-find : (p : A → Bool) (xs : List A) {x : A} → find p xs ≡ some x → In x xs
  In-find p [] h = cc
  In-find p (y ∷ xs) h = elim (Bool-cases (p y)) [
    | inl e ↦ inl (ground arith)
    | inr e ↦ inr (In-find p xs (ground arith))
  ]

  pub find-passes : (p : A → Bool) (xs : List A) {x : A} → find p xs ≡ some x → p x ≡ true
  find-passes p [] h = cc
  find-passes p (y ∷ xs) {x} h = elim (Bool-cases (p y)) [
    | inl e ↦ let same : y ≡ x = ground arith in rw (← same) e
    | inr e ↦ find-passes p xs (ground arith)
  ]

  pub All-of-any-false : (p : A → Bool) (xs : List A) → any p xs ≡ false → All (λ x. p x ≡ false) xs
  All-of-any-false p [] h = tt
  All-of-any-false p (x ∷ xs) h = (ground arith, All-of-any-false p xs (ground arith))

  In-keep_head : (x y : A) (xs ys : List A) → (In x ys → In x xs) → In x (y ∷ ys) → In x (y ∷ xs)
  In-keep_head x y xs ys f (inl e) = inl e
  In-keep_head x y xs ys f (inr m) = inr (f m)

  pub In-keep : (p : A → Bool) (xs : List A) (x : A) → In x (keep p xs) → In x xs
  In-keep p [] x m = m
  In-keep p (y ∷ xs) x m = elim (Bool-cases (p y)) [
    | inl e ↦ In-keep_head x y xs (keep p xs) (In-keep p xs x) (rw e at m)
    | inr e ↦ inr (In-keep p xs x (rw e at m))
  ]

  pub All-keep : (P : A → Type 0) (p : A → Bool) (xs : List A) → All P xs → All P (keep p xs)
  All-keep P p [] hs = tt
  All-keep P p (x ∷ xs) (h, hs) = elim (Bool-cases (p x)) [
    | inl e ↦ rw e (h, All-keep P p xs hs)
    | inr e ↦ rw e (All-keep P p xs hs)
  ]

  pub All-keep_passes : (p : A → Bool) (xs : List A) → All (λ x. p x ≡ true) (keep p xs)
  All-keep_passes p [] = tt
  All-keep_passes p (x ∷ xs) = elim (Bool-cases (p x)) [
    | inl e ↦ rw e (e, All-keep_passes p xs)
    | inr e ↦ rw e (All-keep_passes p xs)
  ]

  pub keep-append : (p : A → Bool) (xs ys : List A) → keep p (xs ++ ys) ≡ keep p xs ++ keep p ys
  keep-append p [] ys = refl
  keep-append p (x ∷ xs) ys = elim (Bool-cases (p x)) [
    | inl e ↦ rw (e, keep-append p xs ys)
    | inr e ↦ rw (e, keep-append p xs ys)
  ]

  pub keep-all : (p : A → Bool) (xs : List A) → All (λ x. p x ≡ true) xs → keep p xs ≡ xs
  keep-all p [] h = refl
  keep-all p (x ∷ xs) (e, h) = rw (e, keep-all p xs h)

  pub keep-none : (p : A → Bool) (xs : List A) → All (λ x. p x ≡ false) xs → keep p xs ≡ []
  keep-none p [] h = refl
  keep-none p (x ∷ xs) (e, h) = rw (e, keep-none p xs h)

  pub In-append_left : (x : A) (xs ys : List A) → In x xs → In x (xs ++ ys)
  In-append_left x [] ys m = elim m [ ]
  In-append_left x (y ∷ xs) ys (inl e) = inl e
  In-append_left x (y ∷ xs) ys (inr m) = inr (In-append_left x xs ys m)

module _ {A B : Type 0} (f : A → B) where
  pub All-map : (P : B → Type 0) (xs : List A) → All (λ x. P (f x)) xs → All P (map f xs)
  All-map P [] hs = tt
  All-map P (x ∷ xs) (h, hs) = (h, All-map P xs hs)

  pub All-map_keep :
      (P : B → Type 0) (p : A → Bool) (xs : List A) → All P (map f xs) → All P (map f (keep p xs))
  All-map_keep P p [] hs = tt
  All-map_keep P p (x ∷ xs) (h, hs) = elim (Bool-cases (p x)) [
    | inl e ↦ rw e (h, All-map_keep P p xs hs)
    | inr e ↦ rw e (All-map_keep P p xs hs)
  ]

  pub Distinct-map-keep :
      (p : A → Bool) (xs : List A) → Distinct (map f xs) → Distinct (map f (keep p xs))
  Distinct-map-keep p [] d = tt
  Distinct-map-keep p (x ∷ xs) (h, d) = elim (Bool-cases (p x)) [
    | inl e ↦ rw e (All-map_keep (λ y. y ≢ f x) p xs h, Distinct-map-keep p xs d)
    | inr e ↦ rw e (Distinct-map-keep p xs d)
  ]

  All-map_append :
      (P : B → Type 0) (xs : List A) (x : A)
      → All P (map f xs)
      → P (f x)
      → All P (map f (xs ++ x ∷ []))
  All-map_append P [] x hs h = (h, tt)
  All-map_append P (y ∷ xs) x (k, hs) h = (k, All-map_append P xs x hs h)

  All-map_join :
      (P : B → Type 0) (xs ys : List A)
      → All P (map f xs)
      → All P (map f ys)
      → All P (map f (xs ++ ys))
  All-map_join P [] ys hs gs = gs
  All-map_join P (x ∷ xs) ys (h, hs) gs = (h, All-map_join P xs ys hs gs)

  -- Rows with new keys may be appended.
  pub Distinct-map_join :
      (xs ys : List A)
      → Distinct (map f xs)
      → Distinct (map f ys)
      → All (λ y. All (λ x. f x ≢ f y) xs) ys
      → Distinct (map f (xs ++ ys))
  Distinct-map_join [] ys d e h = e
  Distinct-map_join (x ∷ xs) ys (k, d) e h = (
    All-map_join (λ b. b ≢ f x) xs ys k
        (All-map (λ b. b ≢ f x) ys (All-imp (λ y g q. g.0 (sym q)) ys h)),
    Distinct-map_join xs ys d e (All-imp (λ y g. g.1) ys h),
  )

  -- A row with a new key may be appended.
  pub Distinct-map_append :
      (xs : List A) (x : A)
      → Distinct (map f xs)
      → All (λ y. f y ≢ f x) xs
      → Distinct (map f (xs ++ x ∷ []))
  Distinct-map_append [] x d h = (tt, tt)
  Distinct-map_append (y ∷ xs) x (k, d) (n, h) =
      (All-map_append (λ z. z ≢ f y) xs x k (λ e. n (sym e)), Distinct-map_append xs x d h)

  key_absent : (xs : List A) (k : B) (x : A) → All (λ b. b ≢ k) (map f xs) → In x xs → f x ≡ k → ⊥
  key_absent [] k x ns m q = m
  key_absent (w ∷ xs) k x (n, ns) (inl e) q = n (rw (← e) q)
  key_absent (w ∷ xs) k x (n, ns) (inr m) q = key_absent xs k x ns m q

  -- Rows with one key are one row.
  pub eq_of_key :
      (xs : List A) (x y : A) → Distinct (map f xs) → In x xs → In y xs → f x ≡ f y → x ≡ y
  eq_of_key [] x y d m m' h = elim m [ ]
  eq_of_key (z ∷ xs) x y (k, d) (inl e) (inl e') h = cc
  eq_of_key (z ∷ xs) x y (k, d) (inl e) (inr m) h =
      absurd (key_absent xs (f z) y k m (sym h ∙ ap f e))
  eq_of_key (z ∷ xs) x y (k, d) (inr m) (inl e) h = absurd (key_absent xs (f z) x k m (h ∙ ap f e))
  eq_of_key (z ∷ xs) x y (k, d) (inr m) (inr m') h = eq_of_key xs x y d m m' h

  -- Rewriting rows in a way that keeps the key keeps the list of keys.
  pub map-map_same :
      (g : A → A) (xs : List A) → All (λ x. f (g x) ≡ f x) xs → map f (map g xs) ≡ map f xs
  map-map_same g [] h = refl
  map-map_same g (x ∷ xs) (e, h) = rw (e, map-map_same g xs h)
