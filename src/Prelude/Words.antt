-- ===== src/Prelude/Words.antt =====
-- The machine numbers of the program: signed integers, `i32` and the `f64` bit patterns.
use Prim.Native.Nat.{◌/◌, ℕ, ◌-◌, ◌%◌, ◌^◌}
use mathlib.Core.Path.{◌≡◌}
use mathlib.Core.Logic.{◌↔◌}
use mathlib.Core.Bool.{Bool, true, false, not, ◌&&◌, ◌||◌}
use native.Mathlib.Omega.{arith}
use riley_leaderboards.Prelude.Tests.{ltb, num_eq, if◌then◌else◌}

-- `negsuc n` is -(n + 1).
pub data ℤ : Type 0 where
  pos : ℕ → ℤ
  negsuc : ℕ → ℤ

abbrev pub ltb_ℤ : ℤ → ℤ → Bool
ltb_ℤ (pos a) (pos b) = ltb a b
ltb_ℤ (pos a) (negsuc b) = false
ltb_ℤ (negsuc a) (pos b) = true
ltb_ℤ (negsuc a) (negsuc b) = ltb b a

abbrev pub eq_ℤ : ℤ → ℤ → Bool
eq_ℤ (pos a) (pos b) = num_eq a b
eq_ℤ (negsuc a) (negsuc b) = num_eq a b
eq_ℤ _ _ = false

pub eq_ℤ_iff : (a b : ℤ) → (eq_ℤ a b ≡ true) ↔ (a ≡ b)
eq_ℤ_iff (pos a) (pos b) = ground arith
eq_ℤ_iff (negsuc a) (negsuc b) = ground arith
eq_ℤ_iff (pos a) (negsuc b) = ground arith
eq_ℤ_iff (negsuc a) (pos b) = ground arith

-- `n as i32`, and `i32` addition with its wrap-around: the low 32 bits, read with a sign.
abbrev pub as_i32 : ℕ → ℤ
as_i32 n = let r = n % 2 ^ 32 in if ltb r (2 ^ 31) then pos r else negsuc (2 ^ 32 - 1 - r)

-- The largest value of an `i32`, of Postgres's `integer` and of the sort key of a missing value.
abbrev pub max_i32 : ℕ
max_i32 = 2147483647

-- An `f64` is its 64-bit pattern (`to_bits`): a sign, 11 bits of exponent, 52 bits of fraction.
abbrev pub F64 : Type 0
F64 = ℕ

unfoldable pub is_nan : F64 → Bool
is_nan b = num_eq ((b / 2 ^ 52) % 2 ^ 11) 2047 && not (num_eq (b % 2 ^ 52) 0)

unfoldable pub is_infinite : F64 → Bool
is_infinite b = num_eq ((b / 2 ^ 52) % 2 ^ 11) 2047 && num_eq (b % 2 ^ 52) 0

-- The integer that orders the numbers as their values do; both zeros are 0.
unfoldable pub float_key : F64 → ℤ
float_key b = let m = b % 2 ^ 63 in if ltb b (2 ^ 63) || num_eq m 0 then pos m else negsuc (m - 1)

-- `<` of Postgres's `double precision`: a NaN is above every number and equal to itself.
unfoldable pub float_lt : F64 → F64 → Bool
unfolding is_nan float_key
float_lt a b = not (is_nan a) && (is_nan b || ltb_ℤ (float_key a) (float_key b))
