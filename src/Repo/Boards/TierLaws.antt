-- ===== src/Repo/Boards/TierLaws.antt =====
-- Which tier configurations `validate_tier_config` of repo/boards.rs accepts.
use riley_leaderboards.Prelude.{
  ℕ, ◌+◌, String, ◌≡◌, refl, sym, ◌≢◌, ◌↔◌, true, false, not, Option, some, List, [], ◌∷◌, arith,
  ◌==◌, eq_iff, and_then, not-eq-false, any, All, ℤ, Distinct, All-imp,
}
use riley_leaderboards.Models.Json.{Json}
use riley_leaderboards.Models.{
  refuse_if, ok_or, bind-eq-ok, guard-eq-ok, refuse_if-eq-ok, ok_or-eq-ok, tier_config_missing,
  tiers_missing, tiers_empty, tier_key_missing, tier_position_missing, tier_key_duplicate,
  tier_position_range, validation, ok,
}
use riley_leaderboards.Repo.Boards.Tiers.{in_i32, check_tiers, is_empty, validate_tier_config}

module _ (json : Json) where
  abbrev pub key_of : json.Value → Option String
  key_of tier = and_then (json.get tier "key") json.as_str

  abbrev pub position_of : json.Value → Option ℤ
  position_of tier = and_then (json.get tier "position") json.as_i64

  -- The tier has an integer position of 32 bits.
  abbrev pub HasPosition : json.Value → Type 0
  HasPosition tier = (v : ℤ) × (position_of tier ≡ some v) × (in_i32 v ≡ true)

  -- The keys of the tiers, in order: each tier has a text for its key.
  abbrev pub HasKeys : List json.Value → List String → Type 0
  HasKeys [] [] = Unit
  HasKeys (tier ∷ tiers) (key ∷ keys) = (key_of tier ≡ some key) × HasKeys tiers keys
  HasKeys _ _ = ⊥

  -- Tiers that may follow tiers with the keys `seen`.
  abbrev Fits : List String → List json.Value → Type 0
  Fits seen tiers =
      (keys : List String) × HasKeys tiers keys
      × Distinct keys
      × All (λ key. All (λ k. k ≢ key) seen) keys
      × All HasPosition tiers

  any-All_ne :
      (key : String) (seen : List String)
      → (any (λ k. k == key) seen ≡ false) ↔ All (λ k. k ≢ key) seen
  any-All_ne key [] = ground arith
  any-All_ne key (k ∷ seen) = ground (arith, eq_iff k key, any-All_ne key seen)

  Fits-cons :
      (seen : List String) (tier : json.Value) (tiers : List json.Value) (key : String)
      → key_of tier ≡ some key
      → HasPosition tier
      → All (λ k. k ≢ key) seen
      → Fits (key ∷ seen) tiers
      → Fits seen (tier ∷ tiers)
  Fits-cons seen tier tiers key e p new (keys, has, distinct, apart, places) = (
    key ∷ keys,
    (e, has),
    (All-imp (λ k h q. h.0 (sym q)) keys apart, distinct),
    (new, All-imp (λ k h. h.1) keys apart),
    (p, places),
  )

  Fits-uncons :
      (seen : List String) (tier : json.Value) (tiers : List json.Value)
      → Fits seen (tier ∷ tiers)
      → (key : String) × (key_of tier ≡ some key)
        × HasPosition tier
        × All (λ k. k ≢ key) seen
        × Fits (key ∷ seen) tiers
  Fits-uncons seen tier tiers ([], has, _, _, _) = elim has [ ]
  Fits-uncons seen tier tiers (key ∷ keys, (e, has), (n, distinct), (new, apart), (p, places)) =
      (key, e, p, new, (keys, has, distinct, All-both keys n apart, places))
    where
      All-both :
          (ks : List String)
          → All (λ k. k ≢ key) ks
          → All (λ k. All (λ s. s ≢ k) seen) ks
          → All (λ k. All (λ s. s ≢ k) (key ∷ seen)) ks
      All-both [] hs gs = tt
      All-both (k ∷ ks) (h, hs) (g, gs) = (((λ q. h (sym q)), g), All-both ks hs gs)

  check_tiers_sound :
      (i : ℕ) (seen : List String) (tiers : List json.Value)
      → check_tiers json i seen tiers ≡ ok tt
      → Fits seen tiers
  unfolding check_tiers
  check_tiers_sound i seen [] h = ([], tt, tt, tt, tt)
  check_tiers_sound i seen (tier ∷ tiers) h =
      let (key, e, h) = bind-eq-ok (ok_or (key_of tier) (validation (tier_key_missing i))) _ h in
      let (new, h) =
        guard-eq-ok (refuse_if (any (λ k. k == key) seen) (validation (tier_key_duplicate key))) _
          h in
      let (v, p, h) =
        bind-eq-ok (ok_or (position_of tier) (validation (tier_position_missing i))) _ h in
      let (range, h) =
        guard-eq-ok (refuse_if (not (in_i32 v)) (validation (tier_position_range i v))) _ h in
      Fits-cons seen tier tiers key (ok_or-eq-ok _ _ e)
        (v, ok_or-eq-ok _ _ p, not-eq-false _ (refuse_if-eq-ok _ _ range))
        ((any-All_ne key seen).0 (refuse_if-eq-ok _ _ new))
        (check_tiers_sound (i + 1) (key ∷ seen) tiers h)

  check_tiers_complete :
      (i : ℕ) (seen : List String) (tiers : List json.Value)
      → Fits seen tiers
      → check_tiers json i seen tiers ≡ ok tt
  unfolding check_tiers
  check_tiers_complete i seen [] f = refl
  check_tiers_complete i seen (tier ∷ tiers) f =
      let (key, e, (v, p, range), new, rest) = Fits-uncons seen tier tiers f in
      rw (e, (any-All_ne key seen).1 new, p, range)
        (check_tiers_complete (i + 1) (key ∷ seen) tiers rest)

  -- A configuration whose "tiers" is a list with at least one tier, where every tier has a text
  -- "key", no key comes twice, and every tier has an integer "position" of 32 bits.
  pub record IsTierConfig (tier_config : Option json.Value) : Type 0 where
    pub object : json.Value
    pub given : tier_config ≡ some object
    pub tiers : List json.Value
    pub listed : and_then (json.get object "tiers") json.as_array ≡ some tiers
    pub nonempty : tiers ≢ []
    pub keys : List String
    pub has_keys : HasKeys tiers keys
    pub distinct : Distinct keys
    pub positions : All HasPosition tiers

  All-nothing : (keys : List String) → All (λ key. All (λ k. k ≢ key) []) keys
  All-nothing [] = tt
  All-nothing (k ∷ keys) = (tt, All-nothing keys)

  validate_tier_config_sound :
      (tier_config : Option json.Value)
      → validate_tier_config json tier_config ≡ ok tt
      → IsTierConfig tier_config
  unfolding validate_tier_config
  validate_tier_config_sound tier_config h =
      let (tc, given, h) = bind-eq-ok (ok_or tier_config (validation tier_config_missing)) _ h in
      let (tiers, listed, h) =
        bind-eq-ok (ok_or (and_then (json.get tc "tiers") json.as_array) (validation tiers_missing))
          _ h in
      let (nonempty, h) =
        guard-eq-ok (refuse_if (is_empty json tiers) (validation tiers_empty)) _ h in
      let (keys, has, distinct, _, places) = check_tiers_sound 0 [] tiers h in
      record {
        object = tc;
        given = ok_or-eq-ok _ _ given;
        tiers = tiers;
        listed = ok_or-eq-ok _ _ listed;
        nonempty = λ e. cc (e, refuse_if-eq-ok _ _ nonempty);
        keys = keys;
        has_keys = has;
        distinct = distinct;
        positions = places;
      }

  not-is_empty : (tiers : List json.Value) → tiers ≢ [] → is_empty json tiers ≡ false
  not-is_empty [] n = absurd (n refl)
  not-is_empty (_ ∷ _) n = refl

  -- `validate_tier_config` accepts exactly the tier configurations.
  pub validate_tier_config_iff :
      (tier_config : Option json.Value)
      → (validate_tier_config json tier_config ≡ ok tt) ↔ IsTierConfig tier_config
  unfolding validate_tier_config
  validate_tier_config_iff tier_config = (
    validate_tier_config_sound tier_config,
    λ c.
        rw (c.given, c.listed, not-is_empty c.tiers c.nonempty)
          (check_tiers_complete 0 [] c.tiers
            (c.keys, c.has_keys, c.distinct, All-nothing c.keys, c.positions)),
  )
