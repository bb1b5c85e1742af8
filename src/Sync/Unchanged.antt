-- ===== src/Sync/Unchanged.antt =====
-- What `placements_changed` of crates/riley-leaderboards-core/src/sync/execute.rs compares.
use mathlib.Core.Path.{subst}
use mathlib.Core.Option.{some-injective}
use riley_leaderboards.Prelude.{
  ℕ, ◌+◌, String, ◌≡◌, refl, sym, ◌↔◌, inl, inr, Bool, true, false, ◌||◌, Option, none, some, List,
  [], ◌∷◌, arith, ◌==◌, eq_iff, num_eq, num_eq_iff, Bool-cases, Option-cases, not-eq-false, length,
  ℤ, eq_ℤ_iff, as_i32, F64,
}
use riley_leaderboards.Models.{CreatePlacement, PlacementWithEntry}
use riley_leaderboards.Repo.{scores_equal}
use riley_leaderboards.Repo.Versions.Diff.{position_ne, tier_ne, by_slug}
use riley_leaderboards.Sync.{
  json_ne, position_changed, placement_changed, any_changed, placements_changed,
}

-- A position of the file, or on an ordered board the place in the file, is the current one.
abbrev pub SamePosition : String → ℕ → Option ℤ → Option ℤ → Type 0
SamePosition board_type idx current (some i) = current ≡ some i
SamePosition board_type idx current none =
    board_type ≡ "ordered" → current ≡ some (as_i32 (idx + 1))

position_ne_iff : (a b : Option ℤ) → (position_ne a b ≡ false) ↔ (a ≡ b)
position_ne_iff none none = ground arith
position_ne_iff none (some b) = ground arith
position_ne_iff (some a) none = ground arith
position_ne_iff (some a) (some b) = ground (arith, eq_ℤ_iff a b)

tier_ne_iff : (a b : Option String) → (tier_ne a b ≡ false) ↔ (a ≡ b)
tier_ne_iff none none = ground arith
tier_ne_iff none (some b) = ground arith
tier_ne_iff (some a) none = ground arith
tier_ne_iff (some a) (some b) = ground (arith, eq_iff a b)

scores_equal_iff : (a b : Option F64) → (scores_equal a b ≡ true) ↔ (a ≡ b)
unfolding scores_equal
scores_equal_iff none none = ground arith
scores_equal_iff none (some b) = ground arith
scores_equal_iff (some a) none = ground arith
scores_equal_iff (some a) (some b) = ground (arith, num_eq_iff a b)

none_true :
    (a b c d : Bool)
    → (a || b || c || d) ≡ false
    → (a ≡ false) × (b ≡ false) × (c ≡ false) × (d ≡ false)
none_true a b c d h = ground (arith, h)

position_changed_iff :
    (board_type : String) (idx : ℕ) (current proposed : Option ℤ)
    → (position_changed board_type idx current proposed ≡ false)
      ↔ SamePosition board_type idx current proposed
position_changed_iff board_type idx current (some i) = position_ne_iff current (some i)
position_changed_iff board_type idx current none = elim (Bool-cases (board_type == "ordered")) [
  | inl e ↦ rw e (
    λ h _. (position_ne_iff current _).0 h,
    λ h. (position_ne_iff current _).1 (h ((eq_iff board_type "ordered").0 e)),
  )
  | inr e ↦ rw e (λ _ q. absurd (let e' = (eq_iff board_type "ordered").1 q in cc), λ _. refl)
]

module _ {V : Type 0} (eq : V → V → Bool) (eq_sound : (a b : V) → (eq a b ≡ true) ↔ (a ≡ b)) where
  json_ne_iff : (a b : Option V) → (json_ne eq a b ≡ false) ↔ (a ≡ b)
  json_ne_iff none none = ground arith
  json_ne_iff none (some b) = ground arith
  json_ne_iff (some a) none = ground arith
  json_ne_iff (some a) (some b) = ground (arith, eq_sound a b)

  -- The latest version has a placement for the entry that is like the proposed one.
  abbrev pub Unchanged : String → List (PlacementWithEntry V) → ℕ → CreatePlacement V → Type 0
  Unchanged board_type current idx p =
      (c : PlacementWithEntry V) × (by_slug p.entry_slug current ≡ some c)
      × SamePosition board_type idx c.position p.position
      × (c.score ≡ p.score)
      × (c.tier ≡ p.tier)
      × (c.metadata ≡ p.metadata)

  abbrev pub AllUnchanged :
      String → List (PlacementWithEntry V) → ℕ → List (CreatePlacement V) → Type 0
  AllUnchanged board_type current idx [] = Unit
  AllUnchanged board_type current idx (p ∷ ps) =
      Unchanged board_type current idx p × AllUnchanged board_type current (idx + 1) ps

  found_iff :
      (board_type : String) (current : List (PlacementWithEntry V)) (idx : ℕ)
      (p : CreatePlacement V) (c : PlacementWithEntry V)
      → by_slug p.entry_slug current ≡ some c
      → (placement_changed eq board_type idx p (by_slug p.entry_slug current) ≡ false)
        ↔ Unchanged board_type current idx p
  found_iff board_type current idx p c e =
      let position = position_changed_iff board_type idx c.position p.position in
      let score = scores_equal_iff c.score p.score in
      let tier = tier_ne_iff c.tier p.tier in
      let metadata = json_ne_iff c.metadata p.metadata in
      rw e (
        λ h.
            let (a, b, d, f) = none_true _ _ _ _ h in
            (c, refl, position.0 a, score.0 (not-eq-false _ b), tier.0 d, metadata.0 f),
        λ u.
            let same = sym (some-injective c u.0 u.1) in
            let a = position.1 (
              subst
                (λ (q : PlacementWithEntry V). SamePosition board_type idx q.position p.position)
                same u.2) in
            let b = score.1 (subst (λ (q : PlacementWithEntry V). q.score ≡ p.score) same u.3) in
            let d = tier.1 (subst (λ (q : PlacementWithEntry V). q.tier ≡ p.tier) same u.4) in
            let f =
              metadata.1 (subst (λ (q : PlacementWithEntry V). q.metadata ≡ p.metadata) same u.5) in
            rw (a, b, d, f) refl,
      )

  placement_changed_iff :
      (board_type : String) (current : List (PlacementWithEntry V)) (idx : ℕ)
      (p : CreatePlacement V)
      → (placement_changed eq board_type idx p (by_slug p.entry_slug current) ≡ false)
        ↔ Unchanged board_type current idx p
  placement_changed_iff board_type current idx p =
      elim (Option-cases (by_slug p.entry_slug current)) [
        | inl e ↦ rw e (λ h. cc, λ h. absurd (let q = h.1 in cc))
        | inr e ↦ found_iff board_type current idx p e.0 e.1
      ]

  any_changed_iff :
      (board_type : String) (current : List (PlacementWithEntry V)) (idx : ℕ)
      (ps : List (CreatePlacement V))
      → (any_changed eq board_type current idx ps ≡ false) ↔ AllUnchanged board_type current idx ps
  unfolding any_changed
  any_changed_iff board_type current idx [] = (λ h. tt, λ h. refl)
  any_changed_iff board_type current idx (p ∷ ps) =
      let one = placement_changed_iff board_type current idx p in
      let rest = any_changed_iff board_type current (idx + 1) ps in
      elim (Bool-cases (placement_changed eq board_type idx p (by_slug p.entry_slug current))) [
        | inl e ↦ rw e (λ h. cc, λ h. let e' = one.1 h.0 in cc)
        | inr e ↦ rw e (λ h. (one.0 e, rest.0 h), λ h. rest.1 h.1)
      ]

  -- Where `==` on JSON is equality: the file brings no change exactly when it has as many
  -- placements as the latest version, and for each of them, at its place in the file, the latest
  -- version has one of the same entry with the same score, tier and metadata and with its position:
  -- the one in the file, or else on an ordered board its place.
  pub placements_changed_iff :
      (board_type : String) (current : List (PlacementWithEntry V))
      (proposed : List (CreatePlacement V))
      → (placements_changed eq board_type current proposed ≡ false)
        ↔ ((length current ≡ length proposed) × AllUnchanged board_type current 0 proposed)
  unfolding placements_changed
  placements_changed_iff board_type current proposed =
      let rest = any_changed_iff board_type current 0 proposed in
      elim (Bool-cases (num_eq (length current) (length proposed))) [
        | inl e ↦ rw e (λ h. ((num_eq_iff _ _).0 e, rest.0 h), λ h. rest.1 h.1)
        | inr e ↦ rw e (λ h. cc, λ h. let e' = (num_eq_iff _ _).1 h.0 in cc)
      ]
