-- ===== src/Horizon/Coverage.antt =====
-- MEMT/Strategy/Horizon/Hypothesis.hh and Hypothesis.cc, class Coverage: a hypothesis's view of
-- one engine's input. `used` holds the flags of the words behind the frontier.
pub mod Set
pub mod Clear
pub mod Canonical
use memt.Prelude.{
  ℕ, zero, suc, ◌+◌, ◌-◌, ◌<◌, ◌≡◌, Bool, true, false, not, ◌&&◌, List, [], ◌∷◌, add32, sub32, ltb,
  leb, ◌==◌, if◌then◌else◌, length, get_or, set, drop, take, resize, word_mod, min,
}

pub record Coverage : Type 0 where
  pub frontier : ℕ
  pub used : List Bool

abbrev pub eq_flag : Bool → Bool → Bool
eq_flag true c = c
eq_flag false c = not c

-- std::find(xs.begin(), xs.end(), b) - xs.begin()
abbrev pub find_index : Bool → List Bool → ℕ
find_index b [] = 0
find_index b (x ∷ xs) = if eq_flag x b then 0 else suc (find_index b xs)

pub initialize_root : Coverage
initialize_root = record { frontier = 1; used = [] }

-- offset - frontier_ - 1
abbrev pub used_idx : Coverage → ℕ → ℕ
used_idx c offset = sub32 (sub32 offset c.frontier) 1

-- The frontier moves behind the `i`-th flag, which is the first clear one or the end of the flags.
unfoldable pub advance_past : Coverage → ℕ → Coverage
advance_past c i = record {
  frontier = add32 c.frontier (i + 1);
  used = if i == length c.used then [] else drop (suc i) c.used;
}

unfoldable pub use_frontier : Coverage → Coverage
use_frontier c = advance_past c (find_index false c.used)

unfoldable pub use_word : Coverage → ℕ → Coverage
use_word c word =
    if word == c.frontier
    then use_frontier c
    else if ltb c.frontier word
    then (let idx = used_idx c word in
        let grown = if leb (length c.used) idx then resize (idx + 1) false c.used else c.used in
        record c { used = set grown idx true })
    else c

-- Also whether the frontier moved.
unfoldable pub use_to : Coverage → ℕ → Coverage × Bool
use_to c word =
    if leb word c.frontier
    then (c, false)
    else (let idx = used_idx c word in
        if leb (length c.used) idx
        then (record { frontier = word; used = [] }, true)
        else (advance_past c (idx + find_index false (drop idx c.used)), true))

unfoldable pub is_used : Coverage → ℕ → Bool
is_used c offset =
    if ltb offset c.frontier
    then true
    else if offset == c.frontier
    then false
    else get_or c.used (used_idx c offset) false

-- Is the interval from the frontier through `offset` available?
unfoldable pub is_clear_through : Coverage → ℕ → Bool
is_clear_through c offset =
    if ltb offset c.frontier
    then false
    else (let ending = min (sub32 offset c.frontier) (length c.used) in
        find_index true (take ending c.used) == ending)

unfoldable pub max_clear : Coverage → ℕ
max_clear c = add32 (add32 (find_index false c.used) 1) c.frontier

-- The words that the flags speak of have offsets of 32 bits.
abbrev pub Fits : Coverage → Type 0
Fits c = c.frontier + length c.used + 1 < word_mod

eq_flags : List Bool → List Bool → Bool
eq_flags [] [] = true
eq_flags [] (y ∷ ys) = false
eq_flags (x ∷ xs) [] = false
eq_flags (x ∷ xs) (y ∷ ys) = eq_flag x y && eq_flags xs ys

-- operator==
pub eq_coverage : Coverage → Coverage → Bool
unfolding eq_flags
eq_coverage c d = c.frontier == d.frontier && eq_flags c.used d.used
