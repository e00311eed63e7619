-- ===== src/Horizon/Coverage/Set.antt =====
-- Coverage as the set of its used words: UseFrontier, Use and UseTo add words to that set and
-- nothing else.
use memt.Prelude.{
  ℕ, zero, suc, ◌+◌, ◌-◌, ◌<◌, ◌≤◌, ◌≡◌, refl, Bool, true, false, ◌||◌, List, [], ◌∷◌, arith, ltb,
  leb, ◌==◌, if◌then◌else◌, length, get_or, drop, set, word_mod, get_or-drop, get_or_past,
  get_or-resize, get_or-set, length-resize, ◌∙◌, resize, length-drop,
}
use native.Mathlib.Decide.{dec_lt}
use memt.Horizon.Coverage.{
  Coverage, find_index, used_idx, advance_past, use_frontier, use_word, use_to, is_used, Fits,
}

pub find_index-le : (b : Bool) (xs : List Bool) → find_index b xs ≤ length xs
find_index-le b [] = omega arith
find_index-le b (x ∷ xs) = ground (arith, find_index-le b xs)

pub find_false_at : (xs : List Bool) → get_or xs (find_index false xs) false ≡ false
find_false_at [] = refl
find_false_at (true ∷ xs) = find_false_at xs
find_false_at (false ∷ xs) = refl

pub find_false_before :
    (xs : List Bool) (i : ℕ) → i < find_index false xs → get_or xs i false ≡ true
find_false_before [] i h = absurd (omega arith)
find_false_before (true ∷ xs) zero h = refl
find_false_before (true ∷ xs) (suc i) h = find_false_before xs i (omega arith)
find_false_before (false ∷ xs) i h = absurd (omega arith)

-- The flags that are left behind position `i`.
pub rest_flags :
    (xs : List Bool) (i j : ℕ)
    → get_or (if i == length xs then [] else drop (suc i) xs) j false ≡ get_or xs (suc i + j) false
rest_flags xs i j = ground (arith, get_or-drop (suc i) j xs false, get_or_past xs (suc i + j) false)

module _ (c : Coverage) (i o : ℕ) (fits : Fits c) (small : o < word_mod) where
  -- Moving the frontier behind a clear flag adds the words up to that flag.
  pub is_used-advance_past :
      i ≤ length c.used
      → get_or c.used i false ≡ false
      → is_used (advance_past c i) o ≡ ltb o (c.frontier + i + 1) || is_used c o
  unfolding is_used advance_past
  is_used-advance_past inside clear = ground (arith, rest_flags c.used i (o - (c.frontier + i + 2)))

pub is_used-use_frontier :
    (c : Coverage) (o : ℕ)
    → Fits c
    → o < word_mod
    → is_used (use_frontier c) o ≡ (o == c.frontier) || is_used c o
unfolding use_frontier is_used
is_used-use_frontier c o fits small = ground (
  arith,
  is_used-advance_past c (find_index false c.used) o fits small,
  find_index-le false c.used,
  find_false_at c.used,
  find_false_before c.used (o - (c.frontier + 1)),
)

-- The grown flags read like the old ones.
grown_flags :
    (xs : List Bool) (i j : ℕ)
    → get_or (set (if leb (length xs) i then resize (i + 1) false xs else xs) i true) j false
      ≡ (if i == j then true else get_or xs j false)
grown_flags xs i j = ground (
  arith,
  get_or-set (resize (i + 1) false xs) i j true false,
  get_or-set xs i j true false,
  length-resize (i + 1) false xs,
  get_or-resize (i + 1) j xs false,
)

-- `Use` adds exactly the given word to the used words, wherever the word stands, where the offsets
-- and the flags fit in 32 bits.
pub is_used-use_word :
    (c : Coverage) (word o : ℕ)
    → Fits c
    → word < word_mod
    → o < word_mod
    → is_used (use_word c word) o ≡ (o == word) || is_used c o
unfolding use_word is_used
is_used-use_word c word o fits w small = ground (
  arith,
  is_used-use_frontier c o fits small,
  grown_flags c.used (word - c.frontier - 1) (o - c.frontier - 1),
)

-- The flag on which `UseTo` stops: the first clear one that is not before `word`.
abbrev pub stop : Coverage → ℕ → ℕ
stop c word = let idx = word - c.frontier - 1 in idx + find_index false (drop idx c.used)

module _ (c : Coverage) (word : ℕ) (fits : Fits c) (w : word < word_mod) where
  used_idx_exact : c.frontier < word → used_idx c word ≡ word - c.frontier - 1
  used_idx_exact h = omega arith

  pub stop_flag :
      word - c.frontier - 1 < length c.used
      → (stop c word ≤ length c.used) × (get_or c.used (stop c word) false ≡ false)
  stop_flag h =
      let idx = word - c.frontier - 1 in
      (
        omega (arith, find_index-le false (drop idx c.used), length-drop idx c.used),
        ground (
          arith,
          find_false_at (drop idx c.used),
          get_or-drop idx (find_index false (drop idx c.used)) c.used false,
        ),
      )

  before_stop :
      (o : ℕ)
      → word ≤ o
      → o < c.frontier + stop c word + 1
      → c.frontier < word
      → get_or c.used (o - c.frontier - 1) false ≡ true
  before_stop o h k g =
      let idx = word - c.frontier - 1 in
      ground (
        arith,
        find_false_before (drop idx c.used) (o - word),
        get_or-drop idx (o - word) c.used false,
      )

  pub use_to-behind : word ≤ c.frontier → use_to c word ≡ (c, false)
  unfolding use_to
  use_to-behind h = ground arith

  pub use_to-beyond :
      c.frontier < word
      → length c.used ≤ word - c.frontier - 1
      → use_to c word ≡ (record { frontier = word; used = [] }, true)
  unfolding use_to
  use_to-beyond h k = ground arith

  pub use_to-inside :
      c.frontier < word
      → word - c.frontier - 1 < length c.used
      → use_to c word ≡ (advance_past c (stop c word), true)
  unfolding use_to
  use_to-inside h k = rw (used_idx_exact h) (ground arith)

  inside_moves :
      c.frontier < word
      → word - c.frontier - 1 < length c.used
      → word ≤ (advance_past c (stop c word)).frontier
  unfolding advance_past
  inside_moves h k = omega (arith, (stop_flag k).0)

  inside_skips :
      (o : ℕ)
      → o < word_mod
      → c.frontier < word
      → ltb o (c.frontier + stop c word + 1) || is_used c o ≡ ltb o word || is_used c o
  unfolding is_used
  inside_skips o small h = ground (arith, before_stop o)

  inside_is_used :
      (o : ℕ)
      → o < word_mod
      → c.frontier < word
      → word - c.frontier - 1 < length c.used
      → is_used (advance_past c (stop c word)) o ≡ ltb o word || is_used c o
  inside_is_used o small h k =
      is_used-advance_past c (stop c word) o fits small (stop_flag k).0 (stop_flag k).1
      ∙ inside_skips o small h

  beyond_is_used :
      (o : ℕ)
      → o < word_mod
      → c.frontier < word
      → length c.used ≤ word - c.frontier - 1
      → is_used (record { frontier = word; used = [] }) o ≡ ltb o word || is_used c o
  unfolding is_used
  beyond_is_used o small h k = ground (arith, get_or_past c.used (o - c.frontier - 1) false)

  behind_is_used : (o : ℕ) → word ≤ c.frontier → is_used c o ≡ ltb o word || is_used c o
  unfolding is_used
  behind_is_used o h = ground arith

-- What `UseTo` is to do, of its result.
abbrev pub UsedTo : Coverage → ℕ → ℕ → Coverage × Bool → Type 0
UsedTo c word o (d, moved) =
    (is_used d o ≡ ltb o word || is_used c o) × (word ≤ d.frontier) × (moved ≡ ltb c.frontier word)

-- `UseTo` uses every word before the given one, keeps the others as they were, leaves the frontier
-- on or behind the given word, and says whether the frontier moved, where the offsets and the flags
-- fit in 32 bits.
pub use_to-UsedTo :
    (c : Coverage) (word o : ℕ)
    → Fits c
    → word < word_mod
    → o < word_mod
    → UsedTo c word o (use_to c word)
use_to-UsedTo c word o fits w small = elim (dec_lt c.frontier word) [
  | no behind ↦
      rw (use_to-behind c word fits w (omega arith))
        (behind_is_used c word fits w o (omega arith), omega arith, ground arith)
  | yes h ↦ elim (dec_lt (word - c.frontier - 1) (length c.used)) [
    | no beyond ↦
        rw (use_to-beyond c word fits w h (omega arith))
          (beyond_is_used c word fits w o small h (omega arith), omega arith, ground arith)
    | yes inside ↦ rw (use_to-inside c word fits w h inside) (
      inside_is_used c word fits w o small h inside,
      inside_moves c word fits w h inside,
      ground arith,
    )
  ]
]

-- The flags still have offsets of 32 bits after a word is used.
pub use_word-frontier-le :
    (c : Coverage) (word : ℕ) → Fits c → c.frontier ≤ (use_word c word).frontier
unfolding use_word use_frontier advance_past
use_word-frontier-le c word fits = ground (arith, find_index-le false c.used)

pub use_frontier-frontier-lt : (c : Coverage) → Fits c → c.frontier < (use_frontier c).frontier
unfolding use_frontier advance_past
use_frontier-frontier-lt c fits = ground (arith, find_index-le false c.used)
