-- ===== src/Models/Errors.antt =====
-- crates/riley-leaderboards-core/src/error.rs. A text that the code formats is a constructor with
-- the values that are put into it.
use riley_leaderboards.Prelude.{
  ℕ, String, ◌≡◌, refl, ap, ◌≢◌, Bool, true, false, Option, none, some, List, if◌then◌else◌, ℤ,
}

pub data Message : Type 0 where
  slug_length name_empty name_long : Message
  slug_chars slug_hyphen : String → Message
  invalid_board_type invalid_sort_direction : String → Message
  tier_config_missing tiers_missing tiers_empty tier_config_null : Message
  tier_key_missing tier_position_missing : ℕ → Message
  tier_key_duplicate : String → Message
  tier_position_range : ℕ → ℤ → Message
  accumulative_not_scored realtime_not_accumulative clear_not_realtime : Message
  direction_not_scored : Message
  create_on_accumulative no_placements : Message
  duplicate_entry : String → Message
  position_too_small : ℤ → String → Message
  duplicate_position : ℤ → Message
  score_missing score_not_finite tier_missing : String → Message
  invalid_tier : String → String → List String → Message
  too_many_versions : ℕ → ℤ → Message
  entry_not_on_board : String → String → Message
  entry_has_placements : String → ℕ → Message
  submit_not_accumulative submit_not_scored score_infinite : Message
  snapshot_not_accumulative snapshot_not_scored snapshot_empty : Message
  too_many_entries : ℕ → ℕ → Message
  submit_not_realtime no_scores redis_failed rename_failed : Message
  missing_in_postgres : String → Message
  bad_directory : Message
  unreadable unparsable : String → Message
  invalid_ref_type : String → Message
  uri_empty uri_long label_long : Message
  cursor_format cursor_timestamp cursor_id : Message
  board_missing entry_missing collection_missing board_exists entry_exists : String → Message
  collection_exists : String → Message
  board_id_missing entry_id_missing reference_missing : ℕ → Message
  version_missing version_not_on_board : ℤ → Message
  versions_missing : Message
  already_in_collection not_in_collection collection_or_board_missing : String → String → Message

-- What Postgres refuses, by the kind that the code tells apart.
pub data DbError : Type 0 where
  unique_violation foreign_key_violation check_violation row_not_found out_of_range : DbError
  -- Postgres refuses the value that a function or a cast of the query is given.
  invalid_value : DbError

pub data Error : Type 0 where
  config migration : String → Error
  database : DbError → Error
  not_found conflict validation internal service_unavailable : Message → Error

pub data Result {ℓ} (T : Type ℓ) : Type ℓ where
  ok : T → Result T
  err : Error → Result T

-- `r?`, with the rest of the function as `rest`; `>>` is for a check without a value.
infixl 5 ◌>>=◌ ◌>>◌
abbrev pub ◌>>=◌ {ℓ κ} : {T : Type ℓ} {U : Type κ} (r : Result T) (rest : T → Result U) → Result U
err refusal >>= rest = err refusal
ok value >>= rest = rest value

abbrev pub ◌>>◌ {κ} : {U : Type κ} (check : Result (Unit {0})) (rest : Result U) → Result U
check >> rest = check >>= λ _. rest

-- `if refused { return Err(..) }`
abbrev pub refuse_if : Bool → Error → Result (Unit {0})
refuse_if true e = err e
refuse_if false e = ok tt

-- `.ok_or_else(..)`
abbrev pub ok_or {ℓ} : {A : Type ℓ} → Option A → Error → Result A
ok_or none e = err e
ok_or (some a) e = ok a

abbrev ok_part {ℓ} : {A : Type ℓ} → A → Result A → A
ok_part d (ok a) = a
ok_part d (err e) = d

pub ok-injective {ℓ} : {A : Type ℓ} {a b : A} → ok a ≡ ok b → a ≡ b
ok-injective {a} h = ap (ok_part a) h

-- Inversion of a successful bind, and of a guard.
pub bind-eq-ok {ℓ κ} :
    {T : Type ℓ} {U : Type κ} (r : Result T) (rest : T → Result U) {u : U}
    → (r >>= rest) ≡ ok u
    → (t : T) × (r ≡ ok t) × (rest t ≡ ok u)
bind-eq-ok (err refusal) rest h = cc
bind-eq-ok (ok t) rest h = (t, refl, h)

pub guard-eq-ok {ℓ} :
    {B : Type ℓ} (m : Result (Unit {0})) (k : Result B) {b : B}
    → (m >> k) ≡ ok b
    → (m ≡ ok tt) × (k ≡ ok b)
guard-eq-ok (ok tt) k h = (refl, h)
guard-eq-ok (err e) k h = cc

pub refuse_if-eq-ok : (b : Bool) (e : Error) → refuse_if b e ≡ ok tt → b ≡ false
refuse_if-eq-ok true e h = cc
refuse_if-eq-ok false e h = refl

-- A step that is not refused with `e`, before one that is not, is not refused with `e`.
pub guard-ne {ℓ} :
    {B : Type ℓ} (m : Result (Unit {0})) (k : Result B) (e : Error)
    → m ≢ err e
    → (m ≡ ok tt → k ≢ err e)
    → (m >> k) ≢ err e
guard-ne (ok tt) k e h f = f refl
guard-ne (err d) k e h f = λ q. h (cc)

pub bind-ne {ℓ κ} :
    {A : Type ℓ} {B : Type κ} (m : Result A) (f : A → Result B) (e : Error)
    → m ≢ err e
    → ((a : A) → m ≡ ok a → f a ≢ err e)
    → (m >>= f) ≢ err e
bind-ne (ok a) f e h g = g a refl
bind-ne (err d) f e h g = λ q. h (cc)

pub ok_or-eq-ok {ℓ} :
    {A : Type ℓ} (o : Option A) (e : Error) {a : A} → ok_or o e ≡ ok a → o ≡ some a
ok_or-eq-ok none e h = cc
ok_or-eq-ok (some b) e h = cc

-- The result is not an error of the database.
pub record NoDb {ℓ} {A : Type ℓ} (r : Result A) : Type ℓ where
  pub ne : (d : DbError) → r ≢ err (database d)

pub NoDb-ok {ℓ} : {A : Type ℓ} (a : A) → NoDb (ok a)
NoDb-ok a = record { ne = λ d. cc }

pub NoDb-validation {ℓ} : {A : Type ℓ} (m : Message) → NoDb {A = A} (err (validation m))
NoDb-validation m = record { ne = λ d. cc }

pub NoDb-refuse_if : (b : Bool) (m : Message) → NoDb (refuse_if b (validation m))
NoDb-refuse_if true m = record { ne = λ d. cc }
NoDb-refuse_if false m = record { ne = λ d. cc }

pub NoDb-ok_or {ℓ} : {A : Type ℓ} (o : Option A) (m : Message) → NoDb (ok_or o (validation m))
NoDb-ok_or none m = record { ne = λ d. cc }
NoDb-ok_or (some a) m = record { ne = λ d. cc }

pub NoDb-if {ℓ} :
    {A : Type ℓ} (b : Bool) (x y : Result A) → NoDb x → NoDb y → NoDb (if b then x else y)
NoDb-if true x y p q = p
NoDb-if false x y p q = q

pub NoDb-bind {ℓ} :
    {A B : Type ℓ} (m : Result A) (f : A → Result B)
    → NoDb m
    → ((a : A) → NoDb (f a))
    → NoDb (m >>= f)
NoDb-bind (ok a) f h g = g a
NoDb-bind (err e) f h g = record { ne = λ d q. h.ne d (cc) }

pub ruleset no_db_rules = (NoDb-ok, NoDb-validation, NoDb-refuse_if, NoDb-ok_or, NoDb-if, NoDb-bind)
