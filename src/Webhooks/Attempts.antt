-- ===== src/Webhooks/Attempts.antt =====
-- How often and how long `deliver` of outbound_webhooks.rs tries.
use riley_leaderboards.Prelude.{ℕ, ◌+◌, ◌≤◌, ◌≡◌, refl, ◌↔◌, List, [], ◌∷◌, arith, length}
use riley_leaderboards.Webhooks.{
  Reply, success, client_error, other_status, no_reply, exhausted, Delivery, answered, attempts,
  deliver,
}

-- A request that is tried again.
abbrev pub IsRetried : Reply → Type 0
IsRetried success = ⊥
IsRetried client_error = ⊥
IsRetried other_status = Unit
IsRetried no_reply = Unit

abbrev sum : List ℕ → ℕ
sum [] = 0
sum (d ∷ ds) = d + sum ds

-- What holds of a delivery `d` that may send as many requests as there are delays.
abbrev Law : Delivery → List ℕ → Type 0 → Type 0
Law d ds retried =
    (d.requests ≤ length ds) × (d.slept ≤ sum ds) × ((d.outcome ≡ exhausted) ↔ retried)

answered-Law :
    (r : Reply) (delay : ℕ) (ds : List ℕ) (rest : Delivery) (retried : Type 0)
    → Law rest ds retried
    → Law (answered r delay rest) (delay ∷ ds) (IsRetried r × retried)
answered-Law success d ds rest p law = (omega arith, omega arith, ((λ h. cc), λ h. absurd h.0))
answered-Law client_error d ds rest p law = (omega arith, omega arith, ((λ h. cc), λ h. absurd h.0))
answered-Law other_status d ds rest p (n, t, o) =
    (omega (arith, n), omega (arith, t), ((λ h. (tt, o.0 h)), λ h. o.1 h.1))
answered-Law no_reply d ds rest p (n, t, o) =
    (omega (arith, n), omega (arith, t), ((λ h. (tt, o.0 h)), λ h. o.1 h.1))

module _ (reply : ℕ → Reply) where
  -- The requests from the i-th on, one for each delay, are all to be tried again.
  abbrev pub AllRetried : ℕ → List ℕ → Type 0
  AllRetried i [] = Unit
  AllRetried i (d ∷ ds) = IsRetried (reply i) × AllRetried (i + 1) ds

  attempts-Law : (i : ℕ) (ds : List ℕ) → Law (attempts reply i ds) ds (AllRetried i ds)
  unfolding attempts
  attempts-Law i [] = (omega arith, omega arith, ((λ _. tt), λ _. refl))
  attempts-Law i (d ∷ ds) = answered-Law (reply i) d ds _ _ (attempts-Law (i + 1) ds)

  -- A delivery sends at most three requests and sleeps at most six seconds, and it gives up
  -- exactly when none of the three succeeds or is refused by the receiver.
  pub deliver-bounds :
      ((deliver reply).requests ≤ 3)
      × ((deliver reply).slept ≤ 6)
      × (((deliver reply).outcome ≡ exhausted)
          ↔ (IsRetried (reply 0) × IsRetried (reply 1) × IsRetried (reply 2)))
  unfolding deliver
  deliver-bounds =
      let (n, t, o) = attempts-Law 0 (1 ∷ 5 ∷ 0 ∷ []) in
      (n, t, ((λ h. let (a, (b, (c, _))) = o.0 h in (a, b, c)), λ (a, b, c). o.1 (a, (b, (c, tt)))))
