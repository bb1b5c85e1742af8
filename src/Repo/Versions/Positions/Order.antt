-- ===== src/Repo/Versions/Positions/Order.antt =====
-- The order of scores and of placements in repo/versions.rs is a strict weak order.
use riley_leaderboards.Prelude.{
  ◌≡◌, refl, ◌⊎◌, inl, inr, Bool, true, false, Option, none, some, arith, ℤ, ltb_ℤ, F64, float_key,
  float_lt, pos, negsuc,
}
use riley_leaderboards.Models.{Placement}
use riley_leaderboards.Repo.Versions.Positions.{score_before, ranks_before}

ltb_ℤ-asymm : (a b : ℤ) → ltb_ℤ a b ≡ true → ltb_ℤ b a ≡ false
ltb_ℤ-asymm a b h = ground arith

ltb_ℤ-cotrans : (a b c : ℤ) → ltb_ℤ a c ≡ true → (ltb_ℤ a b ≡ true) ⊎ (ltb_ℤ b c ≡ true)
ltb_ℤ-cotrans (pos a) (pos b) c h = ground arith
ltb_ℤ-cotrans (pos a) (negsuc b) c h = ground arith
ltb_ℤ-cotrans (negsuc a) (pos b) c h = ground arith
ltb_ℤ-cotrans (negsuc a) (negsuc b) c h = ground arith

float_lt-asymm : (x y : F64) → float_lt x y ≡ true → float_lt y x ≡ false
unfolding float_lt
float_lt-asymm x y h = ground (arith, ltb_ℤ-asymm (float_key x) (float_key y))

float_lt-cotrans :
    (x y z : F64) → float_lt x z ≡ true → (float_lt x y ≡ true) ⊎ (float_lt y z ≡ true)
unfolding float_lt
float_lt-cotrans x y z h = ground (arith, ltb_ℤ-cotrans (float_key x) (float_key y) (float_key z))

score_before-asymm :
    (asc : Bool) (a b : Option F64) → score_before asc a b ≡ true → score_before asc b a ≡ false
unfolding score_before
score_before-asymm true (some x) (some y) h = float_lt-asymm x y h
score_before-asymm false (some x) (some y) h = float_lt-asymm y x h
score_before-asymm asc (some x) none h = refl
score_before-asymm asc none b h = cc

score_before-cotrans :
    (asc : Bool) (a b c : Option F64)
    → score_before asc a c ≡ true
    → (score_before asc a b ≡ true) ⊎ (score_before asc b c ≡ true)
unfolding score_before
score_before-cotrans asc none b c h = cc
score_before-cotrans asc (some x) none (some z) h = inl refl
score_before-cotrans asc (some x) none none h = inl refl
score_before-cotrans asc (some x) (some y) none h = inr refl
score_before-cotrans true (some x) (some y) (some z) h = float_lt-cotrans x y z h
score_before-cotrans false (some x) (some y) (some z) h = ground (arith, float_lt-cotrans z y x h)

module _ {V : Type 0} (asc : Bool) where
  pub ranks_before_asymm :
      (p q : Placement V) → ranks_before asc p q ≡ true → ranks_before asc q p ≡ false
  unfolding ranks_before
  ranks_before_asymm p q h =
      ground (arith, score_before-asymm asc p.score q.score, score_before-asymm asc q.score p.score)

  pub ranks_before_trans :
      (p q r : Placement V)
      → ranks_before asc p q ≡ true
      → ranks_before asc q r ≡ true
      → ranks_before asc p r ≡ true
  unfolding ranks_before
  ranks_before_trans p q r h k = ground (
    arith,
    score_before-asymm asc q.score r.score,
    score_before-asymm asc p.score q.score,
    score_before-cotrans asc p.score r.score q.score,
    score_before-cotrans asc q.score p.score r.score,
    score_before-cotrans asc r.score q.score p.score,
  )
