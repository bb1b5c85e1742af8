-- ===== src/Prelude/Maps.antt =====
-- Maps from texts, `HashMap` and the hashes of Redis: a list with one row for each key.
use Prim.Native.String.{String}
use mathlib.Core.Path.{◌≡◌, refl}
use mathlib.Core.Logic.{inl, inr}
use mathlib.Core.Bool.{false}
use mathlib.Core.List.{List, [], ◌∷◌}
use mathlib.Core.Option.{Option, none, some}
use text.Mathlib.Text.{◌==◌}
use text.Mathlib.TextEquality.{eq_iff}
use text.Mathlib.TextPositions.{eq_refl}
use riley_leaderboards.Prelude.Tests.{if◌then◌else◌, Bool-cases}

module _ {A : Type 0} where
  abbrev pub lookup : String → List (String × A) → Option A
  lookup key [] = none
  lookup key ((k, a) ∷ rows) = if k == key then some a else lookup key rows

  -- A key that is there keeps its place.
  abbrev pub insert : String → A → List (String × A) → List (String × A)
  insert key a [] = (key, a) ∷ []
  insert key a ((k, b) ∷ rows) =
      let rest = insert key a rows in if k == key then (k, a) ∷ rows else (k, b) ∷ rest

  abbrev pub remove : String → List (String × A) → List (String × A)
  remove key [] = []
  remove key ((k, b) ∷ rows) =
      let rest = remove key rows in if k == key then rest else (k, b) ∷ rest

  pub lookup-insert :
      (key : String) (a : A) (rows : List (String × A)) → lookup key (insert key a rows) ≡ some a
  lookup-insert key a [] = rw (eq_refl key) refl
  lookup-insert key a ((k, b) ∷ rows) = elim (Bool-cases (k == key)) [
    | inl e ↦ rw (e, e) refl
    | inr e ↦ rw (e, e, lookup-insert key a rows) refl
  ]

  pub lookup-insert_other :
      (key other : String) (a : A) (rows : List (String × A))
      → (key == other) ≡ false
      → lookup other (insert key a rows) ≡ lookup other rows
  lookup-insert_other key other a [] h = rw h refl
  lookup-insert_other key other a ((k, b) ∷ rows) h = elim (Bool-cases (k == key)) [
    | inl e ↦ let same : k ≡ key = (eq_iff k key).0 e in rw (e, same, h) refl
    | inr e ↦ rw (e, lookup-insert_other key other a rows h) refl
  ]

  pub lookup-remove :
      (key : String) (rows : List (String × A)) → lookup key (remove key rows) ≡ none
  lookup-remove key [] = refl
  lookup-remove key ((k, b) ∷ rows) = elim (Bool-cases (k == key)) [
    | inl e ↦ rw (e, lookup-remove key rows) refl
    | inr e ↦ rw (e, e, lookup-remove key rows) refl
  ]

  pub lookup-remove_other :
      (key other : String) (rows : List (String × A))
      → (key == other) ≡ false
      → lookup other (remove key rows) ≡ lookup other rows
  lookup-remove_other key other [] h = refl
  lookup-remove_other key other ((k, b) ∷ rows) h = elim (Bool-cases (k == key)) [
    | inl e ↦
        let same : k ≡ key = (eq_iff k key).0 e in
        rw (e, same, h, lookup-remove_other key other rows h) refl
    | inr e ↦ rw (e, lookup-remove_other key other rows h) refl
  ]
