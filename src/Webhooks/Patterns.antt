-- ===== src/Webhooks/Patterns.antt =====
-- What the board patterns of outbound_webhooks.rs match.
use mathlib.Core.Path.{subst}
use Prim.Native.String.{◌++◌ as append}
use Prim.Native.String.append.{nil as append_nil, cons as append_cons}
use text.Mathlib.TextBridge.{IsPrefix}
use text.Mathlib.TextEquality.{starts_with_iff}
use riley_leaderboards.Prelude.{
  String, ◌≡◌, refl, sym, ap, ◌∙◌, ◌↔◌, inl, inr, true, some, ◌==◌, eq_iff, Bool-cases, and_then,
}
use riley_leaderboards.Webhooks.{strip_star, glob_match}

strip_star-append : (p : String) → strip_star (append p "*") ≡ some p
unfolding strip_star
strip_star-append String.[] = refl
strip_star-append (String.◌∷◌ c String.[]) = rw (append_cons c String.[] "*")
strip_star-append (String.◌∷◌ c (String.◌∷◌ d s)) =
    let rest : strip_star (String.◌∷◌ d (append s "*")) ≡ some (String.◌∷◌ d s) =
      rw (append_cons d s "*") at (strip_star-append (String.◌∷◌ d s)) in
    rw (append_cons c (String.◌∷◌ d s) "*", append_cons d s "*")
      (ap (λ o. and_then o (λ q. some (String.◌∷◌ c q))) rest)

-- A pattern with a star at its end matches the texts that start with what stands before the star.
pub glob_match-append_iff :
    (p val : String) → (glob_match (append p "*") val ≡ true) ↔ IsPrefix p val
unfolding glob_match strip_star
glob_match-append_iff p val = elim (Bool-cases (append p "*" == "*")) [
  | inl e ↦
      let all : some "" ≡ some p =
        sym (ap strip_star ((eq_iff (append p "*") "*").0 e)) ∙ strip_star-append p in
      let empty : "" ≡ p = cc in
      rw e ((λ _. subst (λ q. IsPrefix q val) empty (val, append_nil val)), λ _. refl)
  | inr e ↦ rw (e, strip_star-append p) (starts_with_iff val p)
]
