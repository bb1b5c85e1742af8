-- ===== src/Prelude/Text.antt =====
-- Rust's `str`: the UTF-8 bytes of a text, and tests on its first and last byte.
use Prim.Native.Nat.{ℕ, ◌+◌, ◌/◌, ◌%◌, ◌^◌}
use Prim.Native.Char.{code}
use Prim.Native.String.{String}
use mathlib.Core.Bool.{Bool, true, false}
use mathlib.Core.List.{List, [], ◌∷◌, ◌++◌}
use mathlib.Core.Option.{Option, none, some}
use mathlib.Core.Path.{◌≡◌}
use text.Mathlib.Text.{◌==◌}
use text.Mathlib.TextEquality.{eq_iff}
use riley_leaderboards.Prelude.Tests.{ltb, num_eq, if◌then◌else◌}
use riley_leaderboards.Prelude.Lists.{last}

-- The UTF-8 encoding of a code point.
abbrev pub utf8 : ℕ → List ℕ
utf8 c =
    if ltb c 128
    then c ∷ []
    else if ltb c 2048
    then (192 + c / 2 ^ 6) ∷ (128 + c % 2 ^ 6) ∷ []
    else if ltb c 65536
    then (224 + c / 2 ^ 12) ∷ (128 + (c / 2 ^ 6) % 2 ^ 6) ∷ (128 + c % 2 ^ 6) ∷ []
    else (240 + c / 2 ^ 18)
      ∷ (128 + (c / 2 ^ 12) % 2 ^ 6)
      ∷ (128 + (c / 2 ^ 6) % 2 ^ 6)
      ∷ (128 + c % 2 ^ 6)
      ∷ []

-- `s.bytes()`
unfoldable pub bytes : String → List ℕ
bytes String.[] = []
bytes (String.◌∷◌ c s) = utf8 (code c) ++ bytes s

-- `starts_with` and `ends_with` at an ASCII character
abbrev pub starts_with_byte : ℕ → List ℕ → Bool
starts_with_byte c [] = false
starts_with_byte c (b ∷ bs) = num_eq b c

abbrev is_byte : ℕ → Option ℕ → Bool
is_byte c none = false
is_byte c (some b) = num_eq b c

abbrev pub ends_with_byte : ℕ → List ℕ → Bool
ends_with_byte c bs = is_byte c (last bs)

-- A text equal to one constant is not equal to another.
pub eq_one_of : (a b s : String) → (a == b) ≡ false → (s == a) ≡ true → (s == b) ≡ false
eq_one_of a b s apart same = let e : s ≡ a = (eq_iff s a).0 same in rw e apart
