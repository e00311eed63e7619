-- ===== src/Graph/Tests.antt =====
-- Two sentences of two words, whose second words are aligned.
use mathlib.Core.Bool.{false≢true}
use memt.Prelude.{
  List, Bool, ℕ, zero, suc, ◌≡◌, ◌<◌, ◌||◌, ◌&&◌, ◌==◌, refl, true, false, [], ◌∷◌, arith,
}
use memt.Input.{Word, Input, location, blank_text, is_connection, ask, get_word}
use memt.Input.Closure.{located}
use memt.Graph.Extensions.{graph_extensions-is_covered}
use memt.Graph.{
  starts_from, continued, bigrams, graph_extensions, bit, bit_size, is_covered, extend_bits,
}
use memt.Graph.Bits.{IsPlace, bit_injective, is_covered-extend_bits}

abbrev first : Word
first = record {
  text = blank_text;
  alignments = record { offset = 0; type = 128 } ∷ record { offset = 0; type = 512 } ∷ [];
}

abbrev second : Word
second = record {
  text = blank_text;
  alignments = record { offset = 1; type = 128 } ∷ record { offset = 1; type = 2 } ∷ [];
}

abbrev pair : Input
pair = record {
  engines =
      record { number = 0; words = first ∷ second ∷ [] }
      ∷ record { number = 1; words = first ∷ second ∷ [] }
      ∷ [];
}

bit_injective_example :
    (bit pair 0 1 ≡ bit pair 1 0 → (◌≡◌ {A = ℕ} 0 1) × (◌≡◌ {A = ℕ} 1 0))
    × (bit pair 0 1 < bit_size 0 pair.engines)
bit_injective_example = bit_injective pair 0 1 1 0 (omega arith) (omega arith)

aligned_inside :
    (e : ℕ)
    → is_connection (ask (get_word pair 0 1).alignments e) ≡ true
    → IsPlace pair e (ask (get_word pair 0 1).alignments e).offset
aligned_inside zero c = omega arith
aligned_inside (suc zero) c = omega arith
aligned_inside (suc (suc e)) c = absurd (false≢true c)

is_covered-extend_bits_example :
    is_covered pair (extend_bits pair (location 0 1) (false ∷ false ∷ false ∷ false ∷ [])) 1 1
    ≡ (is_connection (ask (get_word pair 0 1).alignments 1)
        && (ask (get_word pair 0 1).alignments 1).offset == 1)
      || is_covered pair (false ∷ false ∷ false ∷ false ∷ []) 1 1
unfolding bit_size
is_covered-extend_bits_example =
    is_covered-extend_bits pair (location 0 1) (false ∷ false ∷ false ∷ false ∷ []) 1 1 refl
      aligned_inside (omega arith)

abbrev begun : List Bool
begun = true ∷ false ∷ true ∷ false ∷ []

graph_extensions-is_covered_example : is_covered pair begun 1 1 ≡ false
unfolding located graph_extensions bigrams continued bit starts_from
graph_extensions-is_covered_example =
    graph_extensions-is_covered pair (location 0 0) begun (location 1 1) refl
