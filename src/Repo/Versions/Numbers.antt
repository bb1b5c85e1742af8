-- ===== src/Repo/Versions/Numbers.antt =====
-- The numbers of the versions that `create` of repo/versions.rs makes.
use riley_leaderboards.Prelude.{
  ℕ, ◌+◌, ◌≤◌, ◌<◌, ◌≡◌, List, [], ◌∷◌, ◌++◌, arith, num_eq, num_eq_iff, if◌then◌else◌, unwrap_or,
  length, keep, All, max_i32, All-imp,
}
use riley_leaderboards.Models.{ok, Uuid, Version}
use riley_leaderboards.Db.{Db}
use riley_leaderboards.Repo.Boards.{latest_number}
use riley_leaderboards.Repo.Versions.{next_number}

module _ {V : Type 0} where
  abbrev pub top : List (Version V) → Uuid → ℕ
  top vs board_id = unwrap_or (latest_number vs board_id) 0

  -- The numbers of a board's versions are at most the latest one.
  pub All-le_top :
      (vs : List (Version V)) (board_id : Uuid)
      → All (λ v. v.board_id ≡ board_id → v.version_number ≤ top vs board_id) vs
  unfolding latest_number
  All-le_top [] b = tt
  All-le_top (v ∷ vs) b = (
    λ e. ground (arith, num_eq_iff v.board_id b),
    All-imp (λ w h e. ground (arith, h e)) vs (All-le_top vs b),
  )

  top-cons :
      (w : Version V) (vs : List (Version V)) (v : Version V)
      → top (w ∷ vs) v.board_id < v.version_number
      → top vs v.board_id < v.version_number
  unfolding latest_number
  top-cons w vs v h = ground arith

  -- One more version with a larger number makes that number the latest one of its board, and
  -- leaves the latest numbers of the other boards alone.
  pub top-append :
      (vs : List (Version V)) (v : Version V) (board_id : Uuid)
      → top vs v.board_id < v.version_number
      → top (vs ++ v ∷ []) board_id
        ≡ (if num_eq v.board_id board_id then v.version_number else top vs board_id)
  unfolding latest_number
  top-append [] v b h = ground arith
  top-append (w ∷ vs) v b h = ground (
    arith,
    top-append vs v b (top-cons w vs v h),
    num_eq_iff w.board_id b,
    num_eq_iff v.board_id b,
  )

  -- The number of versions of a board.
  abbrev pub total : List (Version V) → Uuid → ℕ
  total vs board_id = length (keep (λ v. num_eq v.board_id board_id) vs)

  pub total-append :
      (vs : List (Version V)) (v : Version V) (board_id : Uuid)
      → total (vs ++ v ∷ []) board_id
        ≡ (if num_eq v.board_id board_id then total vs board_id + 1 else total vs board_id)
  total-append [] v b = ground arith
  total-append (w ∷ vs) v b = ground (arith, total-append vs v b)

  -- Every board's versions are numbered 1, 2, 3, .. without a gap: the latest number is their count.
  abbrev pub HasNoGap : List (Version V) → Type 0
  HasNoGap vs = (board_id : Uuid) → top vs board_id ≡ total vs board_id

  pub next_number-eq-ok :
      (db : Db V) (board_id : Uuid) {n : ℕ}
      → next_number db board_id ≡ ok n
      → (n ≡ top db.versions board_id + 1) × (n ≤ max_i32)
  unfolding next_number
  next_number-eq-ok db board_id h = ground arith
