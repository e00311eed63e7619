-- ===== src/Prelude/Bits.antt =====
-- Bit masks: `&` and `|` on the native numbers, and what a test of a mask finds.
use Prim.Native.Nat.{
  ℕ, zero, suc, ◌+◌, ◌*◌, ◌/◌, ◌%◌, ◌≤◌, min, max, bit_and, bit_or, digits, bit_and-bitwise,
  bit_or-bitwise,
}
use mathlib.Core.Path.{◌≡◌, refl, ap}
use mathlib.Core.Bool.{Bool, ◌||◌, not}
use native.Mathlib.Omega.{arith}
use memt.Prelude.Tests.{◌==◌}

-- `if (value & mask)`
abbrev pub any_bit : ℕ → ℕ → Bool
any_bit value mask = not (bit_and value mask == 0)

-- More steps than the left word has digits change nothing.
digits_settle :
    (rest : ℕ → ℕ) (digit : ℕ → ℕ → ℕ) (steps left right : ℕ)
    → left ≤ steps
    → (more : ℕ) → left ≤ more
    → digits rest digit steps left right ≡ digits rest digit more left right
digits_settle rest digit zero zero right h zero k = refl
digits_settle rest digit zero zero right h (suc more) k = refl
digits_settle rest digit (suc steps) zero right h zero k = refl
digits_settle rest digit (suc steps) zero right h (suc more) k = refl
digits_settle rest digit zero (suc left) right h more k = absurd (omega arith)
digits_settle rest digit (suc steps) (suc left) right h zero k = absurd (omega arith)
digits_settle rest digit (suc steps) (suc left) right h (suc more) k =
    let halves = digits_settle rest digit steps (suc left / 2) (right / 2) in
    ap (λ d. d * 2 + digit (suc left % 2) (right % 2)) (halves (omega arith) more (omega arith))

empty-bit_and : (right : ℕ) → bit_and 0 right ≡ 0
empty-bit_and = bit_and-bitwise 0

empty-bit_or : (right : ℕ) → bit_or 0 right ≡ right
empty-bit_or = bit_or-bitwise 0

-- The lowest digits, and the halves.
split-bit_and : (a b : ℕ) → bit_and a b ≡ min (a % 2) (b % 2) + 2 * bit_and (a / 2) (b / 2)
split-bit_and zero b = omega (arith, empty-bit_and b, empty-bit_and (b / 2))
split-bit_and (suc a) b =
    let half = suc a / 2 in
    let settled = digits_settle (λ x. 0) min a half (b / 2) (omega arith) half (omega arith) in
    omega (arith, settled, bit_and-bitwise (suc a) b, bit_and-bitwise half (b / 2))

split-bit_or : (a b : ℕ) → bit_or a b ≡ max (a % 2) (b % 2) + 2 * bit_or (a / 2) (b / 2)
split-bit_or zero b = omega (arith, empty-bit_or b, empty-bit_or (b / 2))
split-bit_or (suc a) b =
    let half = suc a / 2 in
    let settled = digits_settle (λ x. x) max a half (b / 2) (omega arith) half (omega arith) in
    omega (arith, settled, bit_or-bitwise (suc a) b, bit_or-bitwise half (b / 2))

le-bit_or_fuel : (n a b : ℕ) → a ≤ n → (a ≤ bit_or a b) × (b ≤ bit_or a b)
le-bit_or_fuel n zero b h = omega (arith, empty-bit_or b)
le-bit_or_fuel zero (suc a) b h = absurd (omega arith)
le-bit_or_fuel (suc n) (suc a) b h =
    omega (arith, split-bit_or (suc a) b, le-bit_or_fuel n (suc a / 2) (b / 2) (omega arith))

pub le-bit_or : (a b : ℕ) → (a ≤ bit_or a b) × (b ≤ bit_or a b)
le-bit_or a b = le-bit_or_fuel a a b (omega arith)

any_bit_step : (a m : ℕ) → any_bit a m ≡ any_bit (a / 2) (m / 2) || not (min (a % 2) (m % 2) == 0)
any_bit_step a m = ground (arith, split-bit_and a m)

-- By halves, in as many rounds as the value is large.
halve-bit_and : (rounds value : ℕ) → value ≤ rounds → bit_and value 0 ≡ 0
halve-bit_and rounds zero h = empty-bit_and 0
halve-bit_and zero (suc value) h = absurd (omega arith)
halve-bit_and (suc rounds) (suc value) h =
    let half = halve-bit_and rounds (suc value / 2) (omega arith) in
    omega (arith, half, split-bit_and (suc value) 0)

pub bit_and-zero : (value : ℕ) → bit_and value 0 ≡ 0
bit_and-zero value = halve-bit_and value value (omega arith)

half-bit_or : (a b : ℕ) → bit_or a b / 2 ≡ bit_or (a / 2) (b / 2)
half-bit_or a b = omega (arith, split-bit_or a b)

parity-bit_or : (a b : ℕ) → bit_or a b % 2 ≡ max (a % 2) (b % 2)
parity-bit_or a b = omega (arith, split-bit_or a b)

any_bit-or_fuel : (n a b m : ℕ) → m ≤ n → any_bit (bit_or a b) m ≡ any_bit a m || any_bit b m
any_bit-or_fuel n a b zero h =
    ground (arith, bit_and-zero (bit_or a b), bit_and-zero a, bit_and-zero b)
any_bit-or_fuel zero a b (suc m) h = absurd (omega arith)
any_bit-or_fuel (suc n) a b (suc m) h =
    let ih = any_bit-or_fuel n (a / 2) (b / 2) (suc m / 2) (omega arith) in
    rw
      (
        any_bit_step (bit_or a b) (suc m),
        any_bit_step a (suc m),
        any_bit_step b (suc m),
        half-bit_or a b,
        ih,
      )
      (ground (arith, parity-bit_or a b))

-- A union of masks has a bit of `mask` exactly if one of the two has.
pub any_bit-bit_or : (a b mask : ℕ) → any_bit (bit_or a b) mask ≡ any_bit a mask || any_bit b mask
any_bit-bit_or a b mask = any_bit-or_fuel mask a b mask (omega arith)
