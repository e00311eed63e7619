-- ===== src/Phrase.antt =====
-- MEMT/Strategy/Phrase: the phrases of an engine's sentence and the words that they block off.
-- Phrase.hh, Type.hh, and ComputeBlocks of Phrase.cc. The detectors stand in Detect, the lock of a
-- hypothesis on a phrase in Lock.
pub mod EndMap
pub mod Blocks
pub mod Detect
pub mod Punctuation
pub mod Lock
mod Tests
use Prim.Native.Nat.{bit_or}
use memt.Prelude.{
  ℕ, zero, suc, ◌+◌, ◌-◌, ◌≤◌, ◌≡◌, Bool, true, false, List, [], ◌∷◌, Option, none, some, ltb, ◌==◌,
  if◌then◌else◌, length, get_or, modify, resize, any_bit, min, max,
}

abbrev pub phrase_punctuation : ℕ
phrase_punctuation = 1

abbrev pub phrase_alignment : ℕ
phrase_alignment = 2

abbrev pub phrase_source_chunk : ℕ
phrase_source_chunk = 4

-- Both bounds are included.
pub record PhraseRange : Type 0 where
  pub start : ℕ
  pub end : ℕ

-- std::map from the end of a phrase, included, to its type: the keys ascend.
abbrev pub EndMap : Type 0
EndMap = List (ℕ × ℕ)

pub record PhraseWord : Type 0 where
  pub block : PhraseRange
  pub ends : EndMap

-- One entry for each word of the sentence.
abbrev pub System : Type 0
System = List PhraseWord

abbrev pub reset_word : ℕ → PhraseWord
reset_word offset = record { block = record { start = offset; end = offset }; ends = [] }

-- `ends_[end] |= type`, where a key that is missing starts as 0
unfoldable pub insert_end : ℕ → ℕ → EndMap → EndMap
insert_end end type [] = (end, bit_or 0 type) ∷ []
insert_end end type ((k, t) ∷ m) =
    if end == k
    then (k, bit_or t type) ∷ m
    else if ltb end k
    then (end, bit_or 0 type) ∷ (k, t) ∷ m
    else (k, t) ∷ insert_end end type m

-- `--upper_bound(bound)`: the last key that is not beyond `bound`, if there is one.
unfoldable pub last_within : ℕ → EndMap → Option ℕ
last_within bound [] = none
last_within bound ((k, t) ∷ m) =
    let later = last_within bound m in
    if ltb bound k then none else elim later [ none ↦ some k | some e ↦ some e ]

abbrev pub add_end : ℕ → ℕ → PhraseWord → PhraseWord
add_end end type w = record w { ends = insert_end end type w.ends }

abbrev pub add_block : PhraseRange → PhraseWord → PhraseWord
add_block blockage w = record w {
  block = record { start = min blockage.start w.block.start; end = max blockage.end w.block.end };
}

abbrev pub phrase_at : System → ℕ → PhraseWord
phrase_at system w = get_or system w (reset_word w)

-- for (j = ..; j <= p->first; ++j), with `rounds` of them left
add_blocks : ℕ → ℕ → PhraseRange → System → System
add_blocks zero j blockage system = system
add_blocks (suc rounds) j blockage system =
    add_blocks rounds (suc j) blockage (modify (add_block blockage) j system)

-- One phrase, which blocks if it is punctuation or a chunk of the source.
block_end : ℕ → ℕ → ℕ → System → System
block_end offset end type system =
    if any_bit type (bit_or phrase_punctuation phrase_source_chunk)
    then add_blocks (end + 1 - offset) offset (record { start = offset; end = end }) system
    else system

block_ends : ℕ → EndMap → System → System
block_ends offset [] system = system
block_ends offset ((end, type) ∷ ends) system =
    block_ends offset ends (block_end offset end type system)

-- for (offset = ..; offset < system.size(); ++offset), with `rounds` of them left
block_words : ℕ → ℕ → System → System
block_words zero offset system = system
block_words (suc rounds) offset system =
    block_words rounds (suc offset) (block_ends offset (phrase_at system offset).ends system)

unfoldable pub compute_blocks : System → System
unfolding block_words block_ends block_end add_blocks
compute_blocks system = block_words (length system) 0 system
