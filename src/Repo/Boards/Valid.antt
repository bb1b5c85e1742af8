-- ===== src/Repo/Boards/Valid.antt =====
-- The table of boards stays valid under `create` and `update` of repo/boards.rs: every
-- row is consistent, and no two rows share a slug or an id.
use mathlib.Core.Path.{subst}
use riley_leaderboards.Prelude.{
  String, ◌≡◌, refl, sym, ap, ◌∙◌, ◌≢◌, inl, inr, false, List, [], ◌∷◌, map, ◌==◌, eq_iff, num_eq,
  num_eq_iff, if◌then◌else◌, Bool-cases, if-either, any, In, All, All-append, Distinct, All-In,
  All-of-In, All-imp, In-find, All-of-any-false, Distinct-map_append, eq_of_key, map-map_same,
}
use riley_leaderboards.Models.{ok_or-eq-ok, ok, Uuid, DateTime, Board, CreateBoard, UpdateBoard}
use riley_leaderboards.Models.Json.{Json}
use riley_leaderboards.Db.{Db}
use riley_leaderboards.Repo.Boards
use riley_leaderboards.Repo.Boards.{get_by_slug}
use riley_leaderboards.Repo.Boards.Consistency.{IsConsistent, create-Accepted, create-IsConsistent}
use riley_leaderboards.Repo.Boards.Updates.{Updated, update-Updated, Updated-IsConsistent}

module _ (json : Json) where
  pub record IsValid (boards : List (Board json.Value)) : Type 0 where
    pub consistent : All (IsConsistent json) boards
    pub slugs : Distinct (map (λ b. b.slug) boards)
    pub ids : Distinct (map (λ b. b.id) boards)

  fresh-All :
      (s : String) (boards : List (Board json.Value))
      → any (λ c. c.slug == s) boards ≡ false
      → All (λ c. c.slug ≢ s) boards
  fresh-All s boards h =
      All-imp (λ c e q. cc (e, (eq_iff c.slug s).1 q)) boards (All-of-any-false _ boards h)

  -- When `create` returns a board and its key is new, the table stays valid: every board
  -- passes the CHECKs of the table, sorts by "desc" unless it is scored, and has a tier
  -- configuration that the validation accepts if it is tiered; no two share a slug or a key.
  pub create-IsValid :
      (db : Db json.Value) (id : Uuid) (now : DateTime) (input : CreateBoard json.Value)
      {b : Board json.Value} {db' : Db json.Value}
      → IsValid db.boards
      → All (λ c. c.id ≢ id) db.boards
      → Boards.create json db id now input ≡ ok (b, db')
      → IsValid db'.boards
  create-IsValid db id now input {b} {db'} v new h =
      let i = (create-Accepted json db id now input h).inserted in
      let given = Boards.new_board id now input in
      subst (λ (d : Db json.Value). IsValid d.boards) i.table
        (record {
          consistent = All-append (IsConsistent json) db.boards (given ∷ []) v.consistent (
            subst (IsConsistent json) (sym i.row) (create-IsConsistent json db id now input h),
            tt,
          );
          slugs = Distinct-map_append (λ c. c.slug) db.boards given v.slugs (fresh-All _ _ i.fresh);
          ids = Distinct-map_append (λ c. c.id) db.boards given v.ids new;
        })

  -- The row that `update` finds, and what each row of the table becomes.
  module _ (now : DateTime) (input : UpdateBoard json.Value) {old new : Board json.Value}
      (u : Updated json now input old new) where
    step : Board json.Value → Board json.Value
    step c = if num_eq c.id old.id then new else c

    All-step :
        (boards : List (Board json.Value))
        → All (IsConsistent json) boards
        → IsConsistent json new
        → All (IsConsistent json) (map step boards)
    unfolding step
    All-step [] cs c = tt
    All-step (b ∷ boards) (h, cs) c =
        (if-either (IsConsistent json) (num_eq b.id old.id) c h, All-step boards cs c)

    slug-step : (c : Board json.Value) → (c.id ≡ old.id → c ≡ old) → (step c).slug ≡ c.slug
    unfolding step
    slug-step c same = elim (Bool-cases (num_eq c.id old.id)) [
      | inl e ↦ rw e (
          sym (ap (λ (b : Board json.Value). b.slug) u.row)
          ∙ sym (ap (λ (b : Board json.Value). b.slug) (same ((num_eq_iff _ _).0 e))))
      | inr e ↦ rw e
    ]

    id-step : (c : Board json.Value) → (step c).id ≡ c.id
    unfolding step
    id-step c = elim (Bool-cases (num_eq c.id old.id)) [
      | inl e ↦ rw e (sym (ap (λ (b : Board json.Value). b.id) u.row) ∙ sym ((num_eq_iff _ _).0 e))
      | inr e ↦ rw e
    ]

    All-slug-step :
        (boards : List (Board json.Value)) (rest : List (Board json.Value))
        → Distinct (map (λ b. b.id) boards)
        → In old boards
        → ((c : Board json.Value) → In c rest → In c boards)
        → All (λ c. (step c).slug ≡ c.slug) rest
    All-slug-step boards [] d m f = tt
    All-slug-step boards (c ∷ rest) d m f = (
      slug-step c (eq_of_key (λ b. b.id) boards c old d (f c (inl refl)) m),
      All-slug-step boards rest d m (λ e n. f e (inr n)),
    )

    step-IsValid :
        (boards : List (Board json.Value))
        → In old boards
        → IsValid boards
        → IsValid (map step boards)
    step-IsValid boards m v = record {
      consistent = All-step boards v.consistent (
          Updated-IsConsistent json now input u
            (All-In (IsConsistent json) boards old v.consistent m));
      slugs =
          subst Distinct
            (sym (
              map-map_same (λ c. c.slug) step boards
                (All-slug-step boards boards v.ids m (λ c n. n))))
            v.slugs;
      ids =
          subst Distinct
            (sym (map-map_same (λ c. c.id) step boards (All-of-In boards (λ c n. id-step c))))
            v.ids;
    }

  In-get_by_slug :
      (db : Db json.Value) (slug : String) {b : Board json.Value}
      → get_by_slug db slug ≡ ok b
      → In b db.boards
  unfolding get_by_slug
  In-get_by_slug db slug h = In-find _ db.boards (ok_or-eq-ok _ _ h)

  -- When `update` returns a board, the table stays valid, in the sense of `create-IsValid`.
  pub update-IsValid :
      (db : Db json.Value) (now : DateTime) (slug : String) (input : UpdateBoard json.Value)
      {b : Board json.Value} {db' : Db json.Value}
      → IsValid db.boards
      → Boards.update json db now slug input ≡ ok (b, db')
      → IsValid db'.boards
  unfolding step
  update-IsValid db now slug input v h =
      let (old, found, u, table) = update-Updated json db now slug input h in
      subst (λ (d : Db json.Value). IsValid d.boards) table
        (step-IsValid now input u db.boards (In-get_by_slug db slug found) v)
