-- ===== src/Repo/Slugs.antt =====
-- What `validate_slug` and `scores_equal` of repo/mod.rs accept.
use riley_leaderboards.Prelude.{
  ℕ, ◌≤◌, String, ◌≡◌, ◌≢◌, ◌↔◌, ◌⊎◌, inl, inr, true, false, some, List, [], ◌∷◌, arith,
  Option-cases, length, last, all, All, bytes, starts_with_byte, ends_with_byte,
}
use riley_leaderboards.Models.{ok}
use riley_leaderboards.Repo.{is_slug_byte, validate_slug}

-- A lowercase letter, a digit or a hyphen.
abbrev pub IsSlugByte : ℕ → Type 0
IsSlugByte b = ((b'a' ≤ b) × (b ≤ b'z')) ⊎ (((b'0' ≤ b) × (b ≤ b'9')) ⊎ (b ≡ b'-'))

abbrev pub NotFirst : ℕ → List ℕ → Type 0
NotFirst c [] = Unit
NotFirst c (b ∷ bs) = b ≢ c

abbrev pub NotLast : ℕ → List ℕ → Type 0
NotLast c bs = last bs ≢ some c

pub record IsSlug (bs : List ℕ) : Type 0 where
  pub nonempty : 1 ≤ length bs
  pub short : length bs ≤ 128
  pub chars : All IsSlugByte bs
  pub first : NotFirst b'-' bs
  pub final : NotLast b'-' bs

all-IsSlugByte : (bs : List ℕ) → (all is_slug_byte bs ≡ true) ↔ All IsSlugByte bs
all-IsSlugByte [] = ground arith
all-IsSlugByte (b ∷ bs) = ground (arith, all-IsSlugByte bs)

starts_with_byte-NotFirst : (c : ℕ) (bs : List ℕ) → (starts_with_byte c bs ≡ false) ↔ NotFirst c bs
starts_with_byte-NotFirst c [] = ground arith
starts_with_byte-NotFirst c (b ∷ bs) = ground arith

ends_with_byte-NotLast : (c : ℕ) (bs : List ℕ) → (ends_with_byte c bs ≡ false) ↔ NotLast c bs
ends_with_byte-NotLast c bs = elim (Option-cases (last bs)) [
  | inl e ↦ rw e (ground arith)
  | inr (b, e) ↦ rw e (ground arith)
]

-- `validate_slug` accepts exactly the texts of 1 to 128 bytes, all lowercase letters, digits and
-- hyphens, that neither start nor end with a hyphen.
pub validate_slug_iff : (slug : String) → (validate_slug slug ≡ ok tt) ↔ IsSlug (bytes slug)
unfolding validate_slug
validate_slug_iff slug = ground (
  arith,
  all-IsSlugByte (bytes slug),
  starts_with_byte-NotFirst b'-' (bytes slug),
  ends_with_byte-NotLast b'-' (bytes slug),
)
