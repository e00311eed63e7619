-- ===== src/Horizon/Coverage/Clear.antt =====
-- What IsClearThrough and MaxClear say of the used words.
use memt.Prelude.{
  ℕ, zero, suc, ◌+◌, ◌-◌, ◌<◌, ◌≤◌, ◌≡◌, refl, Bool, true, false, List, [], ◌∷◌, arith, length,
  get_or, get_or_past, take, word_mod, min, ◌↔◌,
}
use mathlib.Core.Bool.{false≢true}
use memt.Horizon.Coverage.{
  Coverage, find_index, use_frontier, advance_past, is_used, is_clear_through, max_clear, Fits,
}
use memt.Horizon.Coverage.Set.{find_index-le}

-- The first `n` flags are clear exactly if the search for a set one among them runs to their end.
clear_prefix :
    (xs : List Bool) (n i : ℕ)
    → n ≤ length xs
    → find_index true (take n xs) ≡ n
    → i < n
    → get_or xs i false ≡ false
clear_prefix [] n i h e k = absurd (omega arith)
clear_prefix (x ∷ xs) zero i h e k = absurd (omega arith)
clear_prefix (true ∷ xs) (suc n) i h e k = absurd (omega arith)
clear_prefix (false ∷ xs) (suc n) zero h e k = refl
clear_prefix (false ∷ xs) (suc n) (suc i) h e k =
    clear_prefix xs n i (omega arith) (omega arith) (omega arith)

clear_prefix_found :
    (xs : List Bool) (n : ℕ)
    → n ≤ length xs
    → ((i : ℕ) → i < n → get_or xs i false ≡ false)
    → find_index true (take n xs) ≡ n
clear_prefix_found xs zero h e = refl
clear_prefix_found [] (suc n) h e = absurd (omega arith)
clear_prefix_found (true ∷ xs) (suc n) h e = ground (arith, e 0)
clear_prefix_found (false ∷ xs) (suc n) h e =
    omega (arith, clear_prefix_found xs n (omega arith) (λ i k. e (suc i) (omega arith)))

-- `IsClearThrough` of an offset that is not before the frontier answers true exactly if no word from
-- the frontier through it is used, where the offsets and the flags fit in 32 bits.
pub is_clear_through_iff :
    (c : Coverage) (offset : ℕ)
    → Fits c
    → offset < word_mod
    → c.frontier ≤ offset
    → (is_clear_through c offset ≡ true)
      ↔ ((o : ℕ) → c.frontier ≤ o → o ≤ offset → is_used c o ≡ false)
unfolding is_clear_through is_used
is_clear_through_iff c offset fits small from = (
  λ h o a b. ground (
    arith,
    clear_prefix c.used (min (offset - c.frontier) (length c.used)) (o - c.frontier - 1),
    get_or_past c.used (o - c.frontier - 1) false,
  ),
  λ h. ground (
    arith,
    clear_prefix_found c.used (min (offset - c.frontier) (length c.used)) (omega arith)
        (λ i k. ground (arith, h (c.frontier + 1 + i))),
  ),
)

-- `MaxClear` is the frontier that `UseFrontier` would leave.
pub max_clear-use_frontier : (c : Coverage) → max_clear c ≡ (use_frontier c).frontier
unfolding max_clear use_frontier advance_past
max_clear-use_frontier c = omega arith

first_set :
    (xs : List Bool) (n : ℕ)
    → get_or xs 0 false ≡ true
    → (find_index true (take n xs) ≡ 0) × (0 < length xs) × (0 < find_index false xs)
first_set [] n h = absurd (false≢true h)
first_set (true ∷ xs) zero h = (refl, omega arith, omega arith)
first_set (true ∷ xs) (suc n) h = (refl, omega arith, omega arith)
first_set (false ∷ xs) n h = absurd (false≢true h)

-- `MaxClear` is not an offset through which the words are clear where the word behind the frontier
-- is used, and the flags fit in 32 bits.
pub max_clear_blocked :
    (c : Coverage)
    → Fits c
    → is_used c (c.frontier + 1) ≡ true
    → is_clear_through c (max_clear c) ≡ false
unfolding max_clear is_used is_clear_through
max_clear_blocked c fits h = ground (
  arith,
  first_set c.used (min (find_index false c.used + 1) (length c.used)),
  find_index-le false c.used,
)

-- Where no flag is set, every offset behind the frontier is clear, so that `MaxClear`, the frontier
-- plus one, is not the last of them.
pub max_clear_short :
    (c : Coverage) (offset : ℕ)
    → c.used ≡ []
    → c.frontier + 1 < offset
    → offset < word_mod
    → (is_clear_through c offset ≡ true) × (max_clear c < offset)
unfolding max_clear is_clear_through
max_clear_short c offset e h small = rw e (ground arith, ground arith)
