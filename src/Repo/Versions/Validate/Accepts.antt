-- ===== src/Repo/Versions/Validate/Accepts.antt =====
-- Which placements `validate_placements` of repo/versions.rs accepts.
use riley_leaderboards.Prelude.{
  ◌≤◌, String, ◌≡◌, refl, ◌≢◌, ◌↔◌, true, false, Option, none, some, List, [], ◌∷◌, map, arith,
  ◌==◌, eq_iff, any, All, ℤ, eq_ℤ, eq_ℤ_iff, F64, is_nan, is_infinite, pos, negsuc, eq_one_of,
  Distinct,
}
use riley_leaderboards.Models.{
  refuse_if, guard-eq-ok, refuse_if-eq-ok, no_placements, duplicate_entry, duplicate_position,
  validation, ok, Board, CreatePlacement,
}
use riley_leaderboards.Models.Json.{Json}
use riley_leaderboards.Models.Distinct.{check_distinct, check_distinct_iff}
use riley_leaderboards.Repo.Versions.Validate.{
  resolved_from, is_empty, check_positions, check_scores, check_tiers, valid_tiers, check_by_type,
  validate_placements,
}

abbrev pub IsPositive : Option ℤ → Type 0
IsPositive none = Unit
IsPositive (some (pos n)) = 1 ≤ n
IsPositive (some (negsuc n)) = ⊥

-- The score is given, and is a finite number.
abbrev pub HasFiniteScore : Option F64 → Type 0
HasFiniteScore none = ⊥
HasFiniteScore (some s) = (is_nan s ≡ false) × (is_infinite s ≡ false)

-- The tier is given, and is one of the keys, if the board lists any.
abbrev pub HasTier : Option (List String) → Option String → Type 0
HasTier valid none = ⊥
HasTier none (some tier) = Unit
HasTier (some keys) (some tier) = any (λ k. k == tier) keys ≡ true

not-is_empty : {A : Type 0} (xs : List A) → xs ≢ [] → is_empty xs ≡ false
not-is_empty [] n = absurd (n refl)
not-is_empty (_ ∷ _) n = refl

module _ {V : Type 0} where
  check_positions_iff :
      (ps : List (CreatePlacement V))
      → (check_positions ps ≡ ok tt) ↔ All (λ p. IsPositive p.position) ps
  unfolding check_positions
  check_positions_iff [] = ground arith
  check_positions_iff (p ∷ ps) = ground (arith, check_positions_iff ps)

  check_scores_iff :
      (ps : List (CreatePlacement V))
      → (check_scores ps ≡ ok tt) ↔ All (λ p. HasFiniteScore p.score) ps
  unfolding check_scores
  check_scores_iff [] = ground arith
  check_scores_iff (p ∷ ps) = ground (arith, check_scores_iff ps)

  check_tiers_iff :
      (valid : Option (List String)) (ps : List (CreatePlacement V))
      → (check_tiers valid ps ≡ ok tt) ↔ All (λ p. HasTier valid p.tier) ps
  unfolding check_tiers
  check_tiers_iff valid [] = ground arith
  check_tiers_iff valid (p ∷ ps) = ground (arith, check_tiers_iff valid ps)

module _ (json : Json) where
  pub record IsPlaceable (board : Board json.Value) (ps : List (CreatePlacement json.Value))
      : Type 0 where
    pub nonempty : ps ≢ []
    pub entries : Distinct (map (λ p. p.entry_slug) ps)
    pub positive : All (λ p. IsPositive p.position) ps
    pub ordered : board.board_type ≡ "ordered" → Distinct (resolved_from 0 ps)
    pub scored : board.board_type ≡ "scored" → All (λ p. HasFiniteScore p.score) ps
    pub tiered :
        board.board_type ≡ "tiered"
        → All (λ p. HasTier (valid_tiers json board.tier_config) p.tier) ps

  by_type_iff :
      (board : Board json.Value) (ps : List (CreatePlacement json.Value))
      → (check_by_type json board ps ≡ ok tt) ↔ (
          (board.board_type ≡ "ordered" → Distinct (resolved_from 0 ps))
          × (board.board_type ≡ "scored" → All (λ p. HasFiniteScore p.score) ps)
          × (board.board_type ≡ "tiered"
              → All (λ p. HasTier (valid_tiers json board.tier_config) p.tier) ps))
  unfolding check_by_type
  by_type_iff board ps = ground (
    arith,
    eq_iff board.board_type "ordered",
    eq_iff board.board_type "scored",
    eq_iff board.board_type "tiered",
    eq_one_of "ordered" "scored" board.board_type refl,
    eq_one_of "ordered" "tiered" board.board_type refl,
    eq_one_of "scored" "tiered" board.board_type refl,
    check_distinct_iff eq_ℤ duplicate_position eq_ℤ_iff (resolved_from 0 ps),
    check_scores_iff ps,
    check_tiers_iff (valid_tiers json board.tier_config) ps,
  )

  -- `validate_placements` accepts exactly the lists that are not empty, name no entry twice and
  -- no position below 1, and on an ordered board resolve to distinct positions, on a scored board
  -- give each entry a finite score, on a tiered board give each entry a tier, one of the listed
  -- tiers if the board's configuration lists any.
  pub validate_placements_iff :
      (board : Board json.Value) (ps : List (CreatePlacement json.Value))
      → (validate_placements json board ps ≡ ok tt) ↔ IsPlaceable board ps
  unfolding validate_placements
  validate_placements_iff board ps = (
    λ h.
        let (nonempty, h) = guard-eq-ok (refuse_if (is_empty ps) (validation no_placements)) _ h in
        let (entries, h) = guard-eq-ok (check_distinct ◌==◌ duplicate_entry [] _) _ h in
        let (positive, h) = guard-eq-ok (check_positions ps) _ h in
        let (ordered, scored, tiered) = (by_type_iff board ps).0 h in
        record {
          nonempty = λ e. cc (e, refuse_if-eq-ok _ _ nonempty);
          entries = (check_distinct_iff ◌==◌ duplicate_entry eq_iff _).0 entries;
          positive = (check_positions_iff ps).0 positive;
          ordered = ordered;
          scored = scored;
          tiered = tiered;
        },
    λ c.
        rw
          (
            not-is_empty ps c.nonempty,
            (check_distinct_iff ◌==◌ duplicate_entry eq_iff (map (λ p. p.entry_slug) ps)).1
                c.entries,
            (check_positions_iff ps).1 c.positive,
          )
          ((by_type_iff board ps).1 (c.ordered, c.scored, c.tiered)),
  )
