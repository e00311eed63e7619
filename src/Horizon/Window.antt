-- ===== src/Horizon/Window.antt =====
-- MEMT/Strategy/Horizon/Horizon.hh and Horizon.cc: for each word of a system, the range of offsets
-- in each other system that is near it. An `int` is its bit pattern of 32 bits, in two's complement.
pub mod Bounds
pub mod Projection
pub mod Ranges
use memt.Prelude.{
  ℕ, zero, suc, ◌+◌, ◌-◌, ◌≡◌, Bool, true, false, ◌&&◌, List, [], ◌∷◌, Option, none, some, map,
  add32, sub32, ltb, leb, ◌==◌, if◌then◌else◌, length, get_or, set, replicate, word_max,
}
use memt.Input.{
  Word, Engine, Input, blank_text, WordAlignments, ask, is_connection, get_engine, get_word,
  num_engines,
}

-- `<` on int
abbrev pub int_lt : ℕ → ℕ → Bool
int_lt a b = ltb (add32 a 2147483648) (add32 b 2147483648)

-- The classes FromBeginning and FromEnd.
pub record From : Type 0 where
  pub start : ℕ
  pub off_end : ℕ → Bool
  pub advance : ℕ → ℕ

unfoldable pub from_beginning : ℕ → From
from_beginning n = record {
  start = 0;
  off_end = λ offset. offset == n;
  advance = λ offset. add32 offset 1;
}

unfoldable pub from_end : ℕ → From
from_end n = record {
  start = sub32 n 1;
  off_end = λ offset. offset == word_max;
  advance = λ offset. sub32 offset 1;
}

-- The distances to the closest aligned words, after a word that is aligned itself.
unfoldable pub update_shifts : WordAlignments → ℕ → ℕ → List ℕ → List ℕ
update_shifts align offset other [] = []
update_shifts align offset other (shift ∷ shifts) =
    (if is_connection (ask align other) then sub32 (ask align other).offset offset else shift)
    ∷ update_shifts align offset (suc other) shifts

abbrev pub project : ℕ → List ℕ → List ℕ
project offset shifts = map (λ shift. add32 shift offset) shifts

-- The loop of MakeProjection; `none` means that the fuel ran out.
unfoldable pub projection_loop :
    ℕ → From → List Word → ℕ → List ℕ → List (List ℕ) → Option (List (List ℕ))
projection_loop zero from words offset shifts projection = none
projection_loop (suc fuel) from words offset shifts projection =
    let align = (get_or words offset (record { text = blank_text; alignments = [] })).alignments in
    let shifts' = update_shifts align offset 0 shifts in
    let rest =
      projection_loop fuel from words (from.advance offset) shifts'
        (set projection offset (project offset shifts')) in
    if from.off_end offset then some projection else rest

-- MakeProjection. One unit of fuel more than there are words is enough.
unfoldable pub make_projection : Input → From → ℕ → Option (List (List ℕ))
make_projection input from engine =
    let words = (get_engine input engine).words in
    projection_loop (length words + 1) from words from.start (replicate (num_engines input) 0)
      (replicate (length words) [])

unfoldable pub bound : ℕ → ℕ → ℕ → ℕ
bound bottom top value =
    if int_lt bottom value then (if int_lt value top then value else top) else bottom

pub record Range : Type 0 where
  pub start : ℕ
  pub end : ℕ

-- Range::Contains
unfoldable pub range_contains : Range → ℕ → Bool
range_contains r value = leb r.start value && leb value r.end

abbrev pub int_min : ℕ → ℕ → ℕ
int_min a b = if int_lt b a then b else a

abbrev pub int_max : ℕ → ℕ → ℕ
int_max a b = if int_lt a b then b else a

-- SetBound, of a word in a system of `n` words, from its two projections into another system.
unfoldable pub near : ℕ → ℕ → ℕ → ℕ → Range
near radius n left right = record {
  start = bound 0 (sub32 n 1) (sub32 (int_min left right) radius);
  end = bound 0 (sub32 n 1) (add32 (int_max left right) radius);
}

unfoldable pub near_row : ℕ → ℕ → List ℕ → List ℕ → List Range
near_row radius n (left ∷ lefts) (right ∷ rights) =
    near radius n left right ∷ near_row radius n lefts rights
near_row radius n _ _ = []

unfoldable pub near_rows : ℕ → ℕ → List (List ℕ) → List (List ℕ) → List (List Range)
near_rows radius n (left ∷ lefts) (right ∷ rights) =
    near_row radius n left right ∷ near_rows radius n lefts rights
near_rows radius n _ _ = []

-- System::Reset: for each word of the system, its range in each system.
unfoldable pub reset_window : ℕ → Input → ℕ → Option (List (List Range))
unfolding near_row near_rows
reset_window radius input sys_num =
    let n = length (get_engine input sys_num).words in
    elim (make_projection input (from_beginning n) sys_num) [
      | none ↦ none
      | some lefts ↦ elim (make_projection input (from_end n) sys_num) [
        | none ↦ none
        | some rights ↦ some (near_rows radius n lefts rights)
      ]
    ]
