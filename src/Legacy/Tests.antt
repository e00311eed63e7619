-- ===== src/Legacy/Tests.antt =====
-- Extensions of hypotheses over two sentences.
use memt.Prelude.{ℕ, ◌≡◌, refl, true, false, [], ◌∷◌, arith}
use memt.Input.{Word, Input, location, blank_text}
use memt.Input.Closure.{located}
use memt.Phrase.Lock.{unlocked}
use memt.Horizon.Hypothesis.{frontier_of, is_used_in}
use memt.Legacy.{LegacyConfig, LegacyHypothesis, get_extensions}
use memt.Legacy.Extensions.{get_extensions-is_used, get_extensions-located}

abbrev plain : Word
plain = record { text = blank_text; alignments = [] }

abbrev pair : Input
pair = record {
  engines =
      record { number = 0; words = plain ∷ plain ∷ [] }
      ∷ record { number = 1; words = plain ∷ plain ∷ plain ∷ [] }
      ∷ [];
}

abbrev started : LegacyHypothesis ℕ
started = record {
  horizon = record { frontier = 1; used = [] } ∷ record { frontier = 1; used = [] } ∷ [];
  phrase = unlocked;
  scorer = 0;
}

abbrev narrow : LegacyConfig
narrow = record { extend_aligned = false; continue_recent = true }

get_extensions-located_example :
    located
      (location 1 (frontier_of started.horizon 1))
      (get_extensions narrow pair (location 0 0) started)
    ≡ true
get_extensions-located_example =
    get_extensions-located narrow pair (location 0 0) started 1 refl (omega arith) (omega arith)

offers_first : located (location 0 1) (get_extensions narrow pair (location 0 0) started) ≡ true
offers_first =
    get_extensions-located narrow pair (location 0 0) started 0 refl (omega arith) (omega arith)

get_extensions-is_used_example : is_used_in started.horizon 0 1 ≡ false
get_extensions-is_used_example =
    get_extensions-is_used narrow pair (location 0 0) started refl refl (location 0 1) offers_first
