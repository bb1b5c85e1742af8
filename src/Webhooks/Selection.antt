-- ===== src/Webhooks/Selection.antt =====
-- Which deliveries `fire` of outbound_webhooks.rs makes.
use mathlib.Core.Path.{subst}
use riley_leaderboards.Prelude.{
  String, ◌≡◌, refl, sym, ◌↔◌, ◌⊎◌, inl, inr, Bool, true, ◌&&◌, Option, some, List, [], ◌∷◌, ◌++◌,
  arith, if◌then◌else◌, Bool-cases, Option-cases, any, In,
}
use riley_leaderboards.Webhooks.{
  WebhookEvent, version_created, board_created, board_updated, board_deleted, eq_event,
  WebhookConfig, matches_board_filter, resolve_secret, delivery, fire,
}

eq_event_iff : (a b : WebhookEvent) → (eq_event a b ≡ true) ↔ (b ≡ a)
eq_event_iff version_created version_created = ground arith
eq_event_iff version_created board_created = ground arith
eq_event_iff version_created board_updated = ground arith
eq_event_iff version_created board_deleted = ground arith
eq_event_iff board_created version_created = ground arith
eq_event_iff board_created board_created = ground arith
eq_event_iff board_created board_updated = ground arith
eq_event_iff board_created board_deleted = ground arith
eq_event_iff board_updated version_created = ground arith
eq_event_iff board_updated board_created = ground arith
eq_event_iff board_updated board_updated = ground arith
eq_event_iff board_updated board_deleted = ground arith
eq_event_iff board_deleted version_created = ground arith
eq_event_iff board_deleted board_created = ground arith
eq_event_iff board_deleted board_updated = ground arith
eq_event_iff board_deleted board_deleted = ground arith

any-In_iff :
    (event : WebhookEvent) (events : List WebhookEvent)
    → (any (λ e. eq_event e event) events ≡ true) ↔ In event events
any-In_iff event [] = ground arith
any-In_iff event (e ∷ events) = ground (arith, eq_event_iff e event, any-In_iff event events)

In-append_iff : {A : Type 0} (x : A) (xs ys : List A) → In x (xs ++ ys) ↔ (In x xs ⊎ In x ys)
In-append_iff x [] ys = ground arith
In-append_iff x (y ∷ xs) ys = ground (arith, In-append_iff x xs ys)

module _ (resolve : String → Option String) (event : WebhookEvent) (board_slug : String) where
  -- The configuration lists the event and the board, and the delivery goes to its address with
  -- its secret, which resolves if there is one.
  abbrev pub IsSelected : String × Option String → WebhookConfig → Type 0
  IsSelected (url, secret) config =
      In event config.events
      × (matches_board_filter config.boards board_slug ≡ true)
      × (resolve_secret resolve config.secret ≡ some secret)
      × (url ≡ config.url)

  wanted : WebhookConfig → Bool
  wanted config =
      any (λ e. eq_event e event) config.events && matches_board_filter config.boards board_slug

  own : WebhookConfig → List (String × Option String)
  own config =
      if wanted config then delivery config.url (resolve_secret resolve config.secret) else []

  fire-cons :
      (config : WebhookConfig) (configs : List WebhookConfig)
      → fire resolve event board_slug (config ∷ configs)
        ≡ own config ++ fire resolve event board_slug configs
  unfolding fire own wanted
  fire-cons config configs =
      elim (Bool-cases (
        any (λ e. eq_event e event) config.events
        && matches_board_filter config.boards board_slug)) [ inl e ↦ rw e | inr e ↦ rw e ]

  In-own_iff :
      (config : WebhookConfig) (d : String × Option String)
      → In d (own config) ↔ IsSelected d config
  unfolding own wanted
  In-own_iff config (url, secret) = elim (Option-cases (resolve_secret resolve config.secret)) [
    | inl e ↦ rw e (ground (arith, any-In_iff event config.events))
    | inr (s, e) ↦ rw e (ground (arith, any-In_iff event config.events))
  ]

  -- `fire` makes exactly the deliveries that a configuration of the list selects.
  pub fire_iff :
      (configs : List WebhookConfig) (d : String × Option String)
      → In d (fire resolve event board_slug configs)
        ↔ ((config : WebhookConfig) × In config configs × IsSelected d config)
  unfolding fire
  fire_iff [] d = ((λ m. absurd m), λ (c, m, _). absurd m)
  fire_iff (config ∷ configs) d =
      let rest = fire_iff configs d in
      let split = In-append_iff d (own config) (fire resolve event board_slug configs) in
      (
        λ m. elim (split.0 (subst (In d) (fire-cons config configs) m)) [
          | inl own_one ↦ (config, inl refl, (In-own_iff config d).0 own_one)
          | inr later ↦ let (c, at, sel) = rest.0 later in (c, inr at, sel)
        ],
        λ (c, at, sel). subst (In d) (sym (fire-cons config configs)) (
            split.1 (elim at [
              | inl same ↦ inl ((In-own_iff config d).1 (subst (IsSelected d) same sel))
              | inr later ↦ inr (rest.1 (c, later, sel))
            ])),
      )
