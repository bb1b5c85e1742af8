-- ===== src/Models/Steps.antt =====
-- Steps on a state that keep, also when they fail, what they did before: `Result` beside the state.
use riley_leaderboards.Prelude.{◌≡◌, refl, ap}
use riley_leaderboards.Models.{Result, ok, err}

abbrev pub Step : Type 0 → Type 0 → Type 0
Step S A = S → S × Result A

module _ {S : Type 0} where
  abbrev pub after : {A B : Type 0} → S × Result A → (A → Step S B) → S × Result B
  after (s, ok a) rest = rest a s
  after (s, err e) rest = (s, err e)

  infixl 5 ◌>>=◌ ◌>>◌
  abbrev pub ◌>>=◌ : {A B : Type 0} (m : Step S A) (rest : A → Step S B) → Step S B
  m >>= rest = λ s. after (m s) rest

  abbrev pub ◌>>◌ : {B : Type 0} (m : Step S (Unit {0})) (rest : Step S B) → Step S B
  m >> rest = λ s. after (m s) λ _. rest

  -- What does not touch the state.
  abbrev pub lift : {A : Type 0} → Result A → Step S A
  lift r s = (s, r)

  -- Inversion of a chain that returns, whose first step leaves the state as it was.
  pub lift-eq-ok :
      {A B : Type 0} (s : S) (r : Result A) (rest : A → Step S B) {s' : S} {b : B}
      → after (s, r) rest ≡ (s', ok b)
      → (a : A) × (r ≡ ok a) × (rest a s ≡ (s', ok b))
  lift-eq-ok s (ok a) rest h = (a, refl, h)
  lift-eq-ok {B} s (err e) rest {s'} {b} h =
      let same : ◌≡◌ {A = Result B} (err e) (ok b) = ap (λ (x : S × Result B). x.1) h in cc

  -- What a chain keeps when its first step leaves the state as it was, or keeps it itself.
  pub lift-keeps :
      {A B : Type 0} (K : S → Type 0) (s : S) (r : Result A) (rest : A → Step S B)
      → K s
      → ((a : A) → K (rest a s).0)
      → K (after (s, r) rest).0
  lift-keeps K s (ok a) rest k f = f a
  lift-keeps K s (err e) rest k f = k
