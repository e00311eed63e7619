-- ===== src/Prelude/Words.antt =====
-- `unsigned int` of 32 bits: what an addition or a subtraction leaves after wrapping.
use Prim.Native.Nat.{ℕ, ◌+◌, ◌-◌, ◌%◌, ◌<◌}
use mathlib.Core.Path.{◌≡◌}
use native.Mathlib.Omega.{arith}

-- 2 ^ 32
abbrev pub word_mod : ℕ
word_mod = 4294967296

-- std::numeric_limits<unsigned int>::max(), which is also UINT_MAX
abbrev pub word_max : ℕ
word_max = 4294967295

abbrev pub add32 : ℕ → ℕ → ℕ
add32 a b = (a + b) % 4294967296

abbrev pub sub32 : ℕ → ℕ → ℕ
sub32 a b = (a + 4294967296 - b) % 4294967296

pub add32_exact : (a b : ℕ) → a + b < word_mod → add32 a b ≡ a + b
add32_exact a b h = omega arith
