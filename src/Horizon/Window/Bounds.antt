-- ===== src/Horizon/Window/Bounds.antt =====
-- The range that System::Reset keeps for a word, from the two projections of the word.
use memt.Prelude.{ℕ, ◌+◌, ◌-◌, ◌≤◌, ◌<◌, ◌≡◌, false, arith, add32, sub32, word_mod, min}
use memt.Horizon.Window.{int_lt, bound, near, range_contains}

-- A bit pattern of a number between -2^30 and 2^30.
abbrev pub IsModerate : ℕ → Type 0
IsModerate a =
    (1073741824 ≤ add32 a 2147483648) × (add32 a 2147483648 < 3221225472) × (a < word_mod)

bound-lt : (n value : ℕ) → 0 < n → n < 2147483648 → value < word_mod → bound 0 (sub32 n 1) value < n
unfolding bound
bound-lt n value h k l = ground arith

bound_mono :
    (n a b : ℕ)
    → 0 < n
    → n < 2147483648
    → a < word_mod
    → b < word_mod
    → int_lt b a ≡ false
    → bound 0 (sub32 n 1) a ≤ bound 0 (sub32 n 1) b
unfolding bound
bound_mono n a b h k p q l = ground arith

-- The assertion of SetBound: for projections and a radius below 2^30, and a system with words, fewer
-- than 2^31, the range is not empty, and it
-- lies in the system's own sentence.
near_ordered :
    (radius n left right : ℕ)
    → 0 < n
    → n < 2147483648
    → radius < 1073741824
    → IsModerate left
    → IsModerate right
    → ((near radius n left right).start ≤ (near radius n left right).end)
      × ((near radius n left right).end < n)
unfolding near
near_ordered radius n left right h k small l r = (
  bound_mono n _ _ h k (omega arith) (omega arith) (ground arith),
  bound-lt n _ h k (omega arith),
)

-- A word that is aligned to offset `o` of another system, at which both projections then are, has
-- the range of the offsets within the radius of `o`, cut to the length of its own system, for offsets
-- and radius below 2^30 and a system with words, fewer than 2^31.
pub near_aligned :
    (radius n o : ℕ)
    → 0 < n
    → n < 2147483648
    → radius < 1073741824
    → o < 1073741824
    → near radius n o o
      ≡ record { start = min (n - 1) (o - radius); end = min (n - 1) (o + radius) }
unfolding near bound
near_aligned radius n o h k small p = ground arith

-- If the word is aligned to an offset `o` that is not below the length of its own system, the range
-- does not have the aligned word itself, for offsets and radius below 2^30 and a system with words,
-- fewer than 2^31.
pub near_misses :
    (radius n o : ℕ)
    → 0 < n
    → n < 2147483648
    → radius < 1073741824
    → o < 1073741824
    → n ≤ o
    → range_contains (near radius n o o) o ≡ false
unfolding range_contains
near_misses radius n o h k small p q = rw (near_aligned radius n o h k small p) (ground arith)
