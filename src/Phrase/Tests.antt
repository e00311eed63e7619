-- ===== src/Phrase/Tests.antt =====
-- Concrete runs of the phrases of a sentence.
use mathlib.Core.Bool.{false≢true}
use memt.Horizon.Coverage.{Coverage, max_clear}
use memt.Horizon.Hypothesis.{frontier_of, max_clear_of}
use memt.Phrase.Lock.{unlocked, advance, lock_on, Entered, advance-Entered, advance-frontier-le}
use memt.Prelude.{◌≤◌, ◌≡◌, refl, true, List, [], ◌∷◌, arith}
use memt.Input.{Word, Engine, blank_text}
use memt.Phrase.{EndMap, PhraseWord, phrase_at, insert_end, last_within, reset_word, add_end}
use memt.Phrase.EndMap.{Ascends}
use memt.Phrase.Blocks.{range}
use memt.Phrase.Blocks.Least.{IsBlock, Includes}
use memt.Phrase.Detect.{detect, from_second, reset_system}
use memt.Phrase.Punctuation.{reset_system-IsBlock, reset_system-EndsBehind}
use memt.Phrase.Punctuation.Covered.{ends_in_punctuation, reset_system-blocks_punctuation}

abbrev plain : Word
plain = record { text = record blank_text { original = "word" }; alignments = [] }

abbrev mark : Word
mark = record {
  text = record blank_text { original = ","; is_punctuation = true };
  alignments = [];
}

-- Five words, the third of them a comma.
abbrev sentence : Engine
sentence = record { number = 0; words = plain ∷ plain ∷ mark ∷ plain ∷ plain ∷ [] }

abbrev two_ends : EndMap
two_ends = (3, 1) ∷ (5, 2) ∷ []

reset_system-IsBlock_example :
    IsBlock (detect 1 sentence) 1 (phrase_at (reset_system 1 sentence) 1).block
reset_system-IsBlock_example = reset_system-IsBlock 1 sentence 1 (omega arith)

reset_system-EndsBehind_example : Ascends 2 (phrase_at (reset_system 3 sentence) 1).ends
reset_system-EndsBehind_example = reset_system-EndsBehind 3 sentence 1 (omega arith)

reset_system-blocks_punctuation_example :
    Includes (phrase_at (reset_system 1 sentence) 1).block (range 1 2)
    × Includes (phrase_at (reset_system 1 sentence) 2).block (range 1 2)
unfolding ends_in_punctuation from_second
reset_system-blocks_punctuation_example =
    reset_system-blocks_punctuation 1 sentence 1 refl refl (omega arith) refl

abbrev ends_at : List Coverage
ends_at = record { frontier = 2; used = [] } ∷ []

abbrev starting : PhraseWord
starting = add_end 2 1 (reset_word 1)

advance-Entered_example :
    Entered starting.ends (max_clear_of ends_at 0) 0 (advance starting ends_at 0 1 unlocked)
unfolding insert_end
advance-Entered_example =
    advance-Entered starting ends_at 0 1 unlocked (omega arith, tt) (omega arith) (omega arith)
      (λ locked. absurd (false≢true locked)) refl

advance-frontier-le_example :
    ((advance starting ends_at 0 1 unlocked).engine ≡ 0)
    × (frontier_of ends_at 0 ≤ (advance starting ends_at 0 1 unlocked).end)
unfolding advance lock_on last_within max_clear insert_end
advance-frontier-le_example =
    advance-frontier-le starting ends_at 0 1 unlocked (omega arith, tt) (omega arith) (omega arith)
      (λ locked. absurd (false≢true locked)) refl
