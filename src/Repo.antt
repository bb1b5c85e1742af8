-- ===== src/Repo.antt =====
-- crates/riley-leaderboards-core/src/repo/mod.rs: checks that the repositories share.
pub mod Slugs
pub mod Boards
pub mod Versions
pub mod Entries
pub mod Export
pub mod Scores
pub mod Realtime
pub mod References
pub mod Collections
use riley_leaderboards.Prelude.{
  ℕ, String, Bool, true, false, not, ◌&&◌, ◌||◌, Option, none, some, ltb, leb, num_eq, length, all,
  F64, bytes, starts_with_byte, ends_with_byte,
}
use riley_leaderboards.Models.{
  Result, ◌>>=◌, ◌>>◌, refuse_if, slug_length, name_empty, name_long, slug_chars, slug_hyphen,
  validation, ok,
}

abbrev pub is_slug_byte : ℕ → Bool
is_slug_byte b = (leb b'a' b && leb b b'z') || (leb b'0' b && leb b b'9') || num_eq b b'-'

unfoldable pub validate_slug : String → Result (Unit {0})
validate_slug slug = do
  let n = length (bytes slug)
  refuse_if (num_eq n 0 || ltb 128 n) (validation slug_length)
  refuse_if (not (all is_slug_byte (bytes slug))) (validation (slug_chars slug))
  refuse_if (starts_with_byte b'-' (bytes slug) || ends_with_byte b'-' (bytes slug))
      (validation (slug_hyphen slug))
  ok tt

-- `to_bits` is the identity: an `f64` is its bit pattern.
unfoldable pub scores_equal : Option F64 → Option F64 → Bool
scores_equal none none = true
scores_equal (some x) (some y) = num_eq x y
scores_equal _ _ = false

unfoldable pub validate_name : String → Result (Unit {0})
validate_name name = do
  refuse_if (num_eq (length (bytes name)) 0) (validation name_empty)
  refuse_if (ltb 256 (length (bytes name))) (validation name_long)
  ok tt
