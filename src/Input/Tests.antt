-- ===== src/Input/Tests.antt =====
-- Two engines of one word each, which are aligned.
use mathlib.Core.Bool.{false≢true}
use Prim.Native.String.{String}
use memt.Input.Read.{read_engine, bos_word, eos_word, plain_word}
use memt.Input.Read.Words.{read_engine-IsRead}
use memt.Prelude.{
  ◌+◌, length, get_or, ℕ, zero, suc, ◌≡◌, ◌<◌, ◌↔◌, refl, true, List, [], ◌∷◌, some, arith,
}
use memt.Input.{
  WordText, Engine, blank_word, Word, Input, Location, location, blank_text, is_connection, ask,
}
use memt.Input.Closure.{
  located, all_locations, engines_from, words_from, close_alignment, alignments_of, aligned_at,
}
use memt.Input.Closure.Reach.{Reach, close_alignment-Reach}

abbrev aligned_to_engine : ℕ → Word
aligned_to_engine e = record {
  text = blank_text;
  alignments = record { offset = 0; type = e } ∷ record { offset = 0; type = 2 } ∷ [];
}

abbrev pair : Input
pair = record {
  engines =
      record { number = 0; words = aligned_to_engine 0 ∷ [] }
      ∷ record { number = 1; words = aligned_to_engine 2 ∷ [] }
      ∷ [];
}

pair_inside :
    (i o e : ℕ)
    → e < 2
    → is_connection (ask (alignments_of pair (location i o)) e) ≡ true
    → located (aligned_at (alignments_of pair (location i o)) e) (all_locations pair) ≡ true
unfolding located all_locations engines_from words_from
pair_inside zero zero zero h c = refl
pair_inside zero zero (suc zero) h c = refl
pair_inside zero zero (suc (suc e)) h c = absurd (omega arith)
pair_inside zero (suc o) e h c = absurd (false≢true c)
pair_inside (suc zero) zero zero h c = refl
pair_inside (suc zero) zero (suc zero) h c = refl
pair_inside (suc zero) zero (suc (suc e)) h c = absurd (omega arith)
pair_inside (suc zero) (suc o) e h c = absurd (false≢true c)
pair_inside (suc (suc i)) o e h c = absurd (false≢true c)

close_alignment-Reach_example :
    (closure : List Location) × (close_alignment pair (location 0 0) ≡ some closure)
    × ((m : Location) → (located m closure ≡ true) ↔ Reach pair (location 0 0) m)
unfolding located all_locations engines_from words_from
close_alignment-Reach_example =
    close_alignment-Reach pair (location 0 0) refl (λ m e h c. pair_inside m.engine m.offset e h c)

abbrev old_engine : Engine
old_engine = record { number = 0; words = aligned_to_engine 2 ∷ [] }

abbrev form : String → WordText
form original = record blank_text { original = original }

read_engine-IsRead_example :
    let words = (read_engine (form "<s>") (form "</s>") form 2 ("a" ∷ "b" ∷ []) old_engine).words in
    (length words ≡ 4)
    × (get_or words 3 blank_word ≡ eos_word (form "<s>") (form "</s>") form 2)
    × (get_or words 0 blank_word ≡ bos_word (form "<s>") (form "</s>") form 2)
    × ((i : ℕ)
        → i < 2
        → get_or words (i + 1) blank_word
          ≡ plain_word (form "<s>") (form "</s>") form 2 (get_or ("a" ∷ "b" ∷ []) i ""))
read_engine-IsRead_example =
    read_engine-IsRead (form "<s>") (form "</s>") form 2 ("a" ∷ "b" ∷ []) old_engine (omega arith)
