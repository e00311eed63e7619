-- ===== src/Graph.antt =====
-- MEMT/Strategy/Graph/Coverage: the strategy that follows the alignments, with one bit for each word
-- of the sentences. Sentence.hh and Hypothesis.hh.
pub mod Bits
pub mod Extensions
pub mod Clear
pub mod Strategy
mod Tests
use memt.Prelude.{
  ℕ, zero, suc, ◌+◌, ◌≡◌, Bool, true, false, not, ◌&&◌, ◌||◌, List, [], ◌∷◌, ◌++◌, ltb, ◌==◌,
  if◌then◌else◌, length, get_or, set, replicate, add32,
}
use memt.Input.{
  Engine, Input, Location, location, AlignmentInfo, WordAlignments, is_none, is_connection,
  engine_length, get_word,
}

-- Reset: engine_to_bitstart_ and bit_size_.
unfoldable pub starts_from : ℕ → List Engine → List ℕ
starts_from start [] = []
starts_from start (e ∷ engines) = start ∷ starts_from (start + engine_length e) engines

unfoldable pub bit_size : ℕ → List Engine → ℕ
bit_size start [] = start
bit_size start (e ∷ engines) = bit_size (start + engine_length e) engines

-- Bit
unfoldable pub bit : Input → ℕ → ℕ → ℕ
bit text engine offset = get_or (starts_from 0 text.engines) engine 0 + offset

-- Begin
unfoldable pub begin_bits : Input → List Bool
begin_bits text = replicate (bit_size 0 text.engines) false

-- bits_.test(Bit(engine, offset))
abbrev pub is_covered : Input → List Bool → ℕ → ℕ → Bool
is_covered text bits engine offset = get_or bits (bit text engine offset) false

-- The loop of Extend at engine `e`, with the alignments from there on.
unfoldable pub cover_aligned : Input → ℕ → WordAlignments → List Bool → List Bool
cover_aligned text e [] bits = bits
cover_aligned text e (al ∷ alignments) bits =
    cover_aligned text (suc e) alignments
      (if is_connection al then set bits (bit text e al.offset) true else bits)

-- Extend
unfoldable pub extend_bits : Input → Location → List Bool → List Bool
unfolding cover_aligned
extend_bits text to bits = cover_aligned text 0 (get_word text to.engine to.offset).alignments bits

-- The inner loop of GetExtensions at engine `e`.
unfoldable pub continued : Input → List Bool → ℕ → WordAlignments → List Location
continued text bits e [] = []
continued text bits e (cont ∷ cont_align) =
    let rest = continued text bits (suc e) cont_align in
    if is_none cont || is_covered text bits e cont.offset
    then rest
    else location e cont.offset ∷ rest

-- The outer loop at engine `e`.
unfoldable pub bigrams : Input → List Bool → ℕ → WordAlignments → List Location
unfolding continued
bigrams text bits e [] = []
bigrams text bits e (pre ∷ pre_align) =
    (if is_none pre
      then []
      else continued text bits 0 (get_word text e (add32 pre.offset 1)).alignments)
    ++ bigrams text bits (suc e) pre_align

-- GetExtensions: the locations given to the callback, in their order.
unfoldable pub graph_extensions : Input → Location → List Bool → List Location
unfolding bigrams
graph_extensions text previous bits =
    bigrams text bits 0 (get_word text previous.engine previous.offset).alignments
