-- ===== src/Tests/Redis.antt =====
-- A Redis server that keeps its sorted sets and its hashes as lists, and that it has the laws.
use mathlib.Core.Path.{subst}
use mathlib.Core.Option.{some-injective}
use riley_leaderboards.Prelude.{
  String, ◌≡◌, refl, sym, ap, ◌∙◌, inl, inr, Bool, true, false, ◌||◌, Option, none, some, List, [],
  ◌∷◌, map, ◌==◌, eq_iff, Bool-cases, Option-cases, is_some, unwrap_or, In, F64, lookup, insert,
  remove, lookup-insert, lookup-insert_other, lookup-remove, lookup-remove_other,
}
use riley_leaderboards.Repo.Realtime.Server.{Command, Redis, RedisLaws, zadd, hset, rename, del}

-- Every read and every pipeline succeeds.
pub record Store : Type 0 where
  pub sets : List (String × List (String × F64))
  pub hashes : List (String × List (String × String))

abbrev at : {A : Type 0} → String → List (String × List A) → List A
at key rows = unwrap_or (lookup key rows) []

abbrev moved :
    {A : Type 0}
    → String
    → String
    → List (String × List A)
    → Option (List A)
    → List (String × List A)
moved a b rows none = remove b rows
moved a b rows (some held) = insert b held (remove a rows)

abbrev perform : Command → Store → Store
perform (zadd key member score) s = record s {
  sets = insert key (insert member score (at key s.sets)) s.sets;
}
perform (hset key member val) s = record s {
  hashes = insert key (insert member val (at key s.hashes)) s.hashes;
}
perform (rename a b) s = record {
  sets = moved a b s.sets (lookup a s.sets);
  hashes = moved a b s.hashes (lookup a s.hashes);
}
perform (del key) s = record { sets = remove key s.sets; hashes = remove key s.hashes }

abbrev perform_all : List Command → Store → Store
perform_all [] s = s
perform_all (c ∷ cs) s = perform_all cs (perform c s)

abbrev pub lists : Redis
lists = record {
  State = Store;
  pipe = λ cs s. (perform_all cs s, true);
  has_key = λ key s. some (is_some (lookup key s.sets) || is_some (lookup key s.hashes));
  zrange = λ key s. some (at key s.sets);
  zrevrange = λ key s. some (at key s.sets);
  hget = λ key fields s. some (map (λ f. lookup f (at key s.hashes)) fields);
}

pub In-insert :
    (member : String) (score : F64) (rows : List (String × F64))
    → In (member, score) (insert member score rows)
In-insert member score [] = inl refl
In-insert member score ((k, x) ∷ rows) = elim (Bool-cases (k == member)) [
  | inl e ↦ let same : k ≡ member = (eq_iff k member).0 e in rw (e, same) (inl refl)
  | inr e ↦ rw e (inr (In-insert member score rows))
]

pub lookup-moved :
    (a b : String) (rows : List (String × List (String × F64)))
    → at b (moved a b rows (lookup a rows)) ≡ at a rows
lookup-moved a b rows = elim (Option-cases (lookup a rows)) [
  | inl e ↦ rw e (ap (λ o. unwrap_or o []) (lookup-remove b rows))
  | inr e ↦ rw e.1 (ap (λ o. unwrap_or o []) (lookup-insert b e.0 (remove a rows)))
]

pub lookup-moved_other :
    (c d b : String) (rows : List (String × List (String × F64)))
    → (c == b) ≡ false
    → (d == b) ≡ false
    → at b (moved c d rows (lookup c rows)) ≡ at b rows
lookup-moved_other c d b rows h k = elim (Option-cases (lookup c rows)) [
  | inl e ↦ rw e (ap (λ o. unwrap_or o []) (lookup-remove_other d b rows k))
  | inr e ↦ rw e.1 (
      ap (λ o. unwrap_or o [])
        (lookup-insert_other d b e.0 (remove c rows) k ∙ lookup-remove_other c b rows h))
]

unfoldable pub lists_laws : RedisLaws lists
lists_laws = record {
  sorted_set = λ key s. at key s.sets;
  zrevrange-eq-some = λ key s rows h. some-injective _ _ h;
  In-zrange = λ key s rows row h m. subst (In row) (some-injective _ _ h) m;
  sorted_set-rename =
      λ a b s s' h. ap (λ (x : Store × Bool). at b x.0.sets) (sym h) ∙ lookup-moved a b s.sets;
  sorted_set-renames = λ a b c d s s' h p q.
      ap (λ (x : Store × Bool). at b x.0.sets) (sym h)
      ∙ lookup-moved_other c d b (moved a b s.sets (lookup a s.sets)) p q
      ∙ lookup-moved a b s.sets;
  In-sorted_set = λ key hash member name score s s' h.
      subst (λ (x : Store × Bool). In (member, score) (at key x.0.sets)) h
        (subst (λ o. In (member, score) (unwrap_or o [])) (sym (lookup-insert key _ s.sets))
          (In-insert member score (at key s.sets)));
  sorted_set-other = λ key hash member name other score s p q.
      ap (λ o. unwrap_or o []) (lookup-insert_other key other _ s.sets p);
  hget-hset = λ key hash member name score s s' members names h m got. (
    λ f. lookup f (at hash s'.hashes),
    sym (some-injective _ _ got),
    ap (λ (x : Store × Bool). lookup member (at hash x.0.hashes)) (sym h)
        ∙ ap (λ o. lookup member (unwrap_or o [])) (lookup-insert hash _ s.hashes)
        ∙ lookup-insert member name (at hash s.hashes),
  );
}
