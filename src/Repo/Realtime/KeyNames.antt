-- ===== src/Repo/Realtime/KeyNames.antt =====
-- The names of the keys in crates/riley-leaderboards-core/src/repo/realtime.rs do not collide.
use Prim.Native.String.{◌++◌ as append}
use text.Mathlib.TextLemmas.{
  append_cancel_left, append-eq-nil_iff, append-nil, append_assoc, append_inj,
}
use riley_leaderboards.Prelude.{
  String, ◌≡◌, refl, sym, ap, ◌∙◌, ◌≢◌, inl, inr, true, false, ◌==◌, eq_iff, Bool-cases,
}
use riley_leaderboards.Repo.Realtime.{scores_key, entries_key}
use riley_leaderboards.Repo.Realtime.Snapshot.{snap_key}

eq-false : (a b : String) → a ≢ b → (a == b) ≡ false
eq-false a b h = elim (Bool-cases (a == b)) [ inl e ↦ absurd (h ((eq_iff a b).0 e)) | inr e ↦ e ]

pub snap_key-ne : (key snap_id : String) → (key == snap_key key snap_id) ≡ false
snap_key-ne key snap_id = eq-false _ _ λ e.
    let empty : ◌≡◌ {A = String} ":snap:" "" =
      (append-eq-nil_iff.0 (append_cancel_left key _ _ (sym e ∙ sym (append-nil key)))).0 in
    let no : (":snap:" == "") ≡ true = (eq_iff ":snap:" "").1 empty in cc

-- The end of a key that starts with the prefix and the board.
key_end :
    (prefix slug a b : String)
    → append prefix (append ":board:" (append slug a))
      ≡ append prefix (append ":board:" (append slug b))
    → a ≡ b
key_end prefix slug a b h =
    append_cancel_left slug a b (append_cancel_left ":board:" _ _ (append_cancel_left prefix _ _ h))

scores-ne-entries : (x y : String) → append ":scores" x ≢ append ":entries" y
scores-ne-entries x y h =
    let same : ◌≡◌ {A = String} ":s" ":e" =
      (append_inj (sym (append_assoc ":s" "cores" x) ∙ h ∙ append_assoc ":e" "ntries" y) refl).0 in
    let no : (":s" == ":e") ≡ true = (eq_iff ":s" ":e").1 same in cc

-- A key with a text behind it.
longer :
    (prefix slug a b : String)
    → append (append prefix (append ":board:" (append slug a))) b
      ≡ append prefix (append ":board:" (append slug (append a b)))
longer prefix slug a b =
    append_assoc prefix _ b
    ∙ ap (append prefix)
        (append_assoc ":board:" _ b ∙ ap (append ":board:") (append_assoc slug a b))

pub entries_key-ne :
    (prefix slug snap_id : String)
    → (entries_key prefix slug == snap_key (scores_key prefix slug) snap_id) ≡ false
unfolding scores_key entries_key
entries_key-ne prefix slug snap_id = eq-false _ _ λ e.
    scores-ne-entries (append ":snap:" snap_id) "" (
      sym (key_end prefix slug _ _ (e ∙ longer prefix slug ":scores" _))
      ∙ sym (append-nil ":entries"))

pub entries_snap_key-ne :
    (prefix slug snap_id : String)
    → (snap_key (entries_key prefix slug) snap_id == snap_key (scores_key prefix slug) snap_id)
      ≡ false
unfolding scores_key entries_key
entries_snap_key-ne prefix slug snap_id = eq-false _ _ λ e.
    scores-ne-entries (append ":snap:" snap_id) (append ":snap:" snap_id) (
      key_end prefix slug _ _
        (sym (longer prefix slug ":scores" _) ∙ sym e ∙ longer prefix slug ":entries" _))
