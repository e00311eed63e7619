-- ===== src/Feature/Tests.antt =====
-- Two engines that both translate by the same two words, which are aligned to each other.
use memt.Prelude.{
  ℕ, zero, suc, ◌<◌, ◌≤◌, get_or, true, false, drop, length, ◌++◌, map, ◌+◌, ◌-◌, ◌*◌, ◌≡◌, refl,
  List, [], ◌∷◌, ltb, ◌==◌, arith,
}
use memt.Input.{Input, Word, blank_text}
use memt.Decoder.Score.{Doubles, Score, LogScore, unset_score}
use memt.Decoder.History.{History, node, no_more}
use memt.Feature.Lm.{LanguageModel, finish_config, lm_sentence}
use memt.Feature.Lm.Sized.{orders_of, lm_sentence-IsSized}
use memt.Feature.Scorer.Whole.{IsSized}
use memt.Feature.Verbatim.{
  Config, extend, extend_scores, individual_scores, collective_scores, copy_some, run_lengths,
  run_length,
}
use memt.Feature.Scorer.{
  FeatureSentence, ScorerSentence, reset_scorer, count_both, count_end, end_all, add_weighted,
  scorer_end,
}
use memt.Feature.Scorer.Whole.{
  one_more, no_feature, AllSized, states_alone, scores_alone, together, both_sum,
  scorer_end-together,
}
use memt.Feature.Scorer.Sentences.{
  verbatim_sentence, verbatim_sentence-IsSized, length_sentence, length_sentence-IsSized,
}
use memt.Feature.Verbatim.Runs.{of_any, IsFeature}
use memt.Feature.Verbatim.Whole.{score_path, Counted, get_or-score_path-hits}

abbrev numbers : Doubles ℕ
numbers = record {
  minus_infinity = 0;
  below = ltb;
  same = λ a b. a == b;
  plus = λ a b. a + b;
  minus = λ a b. a - b;
  times = λ a b. a * b;
  inverse = λ n. 1;
}

abbrev word_at : ℕ → Word
word_at o = record {
  text = blank_text;
  alignments = record { offset = o; type = 1 } ∷ record { offset = o; type = 1 } ∷ [];
}

abbrev both : Input
both = record {
  engines =
      record { number = 0; words = word_at 0 ∷ word_at 1 ∷ [] }
      ∷ record { number = 1; words = word_at 0 ∷ word_at 1 ∷ [] }
      ∷ [];
}

abbrev up_to_bigrams : Config
up_to_bigrams = record { num_systems = 2; individual = 1; collective = 2; mask = 1 }

abbrev taken : ℕ → ℕ → History ℕ
taken e o =
    node (record { score = unset_score numbers; word = 0; engine = e; offset = o }) no_more 0

-- The beginning of the first, and then the second word of the other.
abbrev two_words : List (History ℕ)
two_words = taken 1 1 ∷ taken 0 0 ∷ []

two_words-scores :
    map (λ (s : LogScore ℕ). s.log_value) (score_path numbers 0 1 up_to_bigrams both two_words).1
    ≡ 1 ∷ 1 ∷ 2 ∷ []
unfolding score_path extend extend_scores individual_scores collective_scores copy_some run_lengths
    run_length
two_words-scores = refl

of_any-IsFeature : IsFeature up_to_bigrams (of_any 1)
unfolding IsFeature
of_any-IsFeature = (omega arith, omega arith)

get_or-score_path-hits_example : Counted numbers 0 1 up_to_bigrams both two_words (of_any 1)
get_or-score_path-hits_example =
    get_or-score_path-hits numbers 0 1 up_to_bigrams both two_words (of_any 1) (omega arith)
      (omega arith) of_any-IsFeature

abbrev pair_of : List (FeatureSentence ℕ (List ℕ))
pair_of = verbatim_sentence numbers 0 1 up_to_bigrams ∷ length_sentence (λ n. n) [] ∷ []

pair_of-AllSized : AllSized pair_of
pair_of-AllSized =
    one_more _ _ (verbatim_sentence-IsSized numbers 0 1 up_to_bigrams (omega arith))
      (one_more _ _ (length_sentence-IsSized (λ n. n) []) no_feature)

abbrev four_weights : List ℕ
four_weights = 1 ∷ 2 ∷ 3 ∷ 4 ∷ []

abbrev pair_scorer : ScorerSentence ℕ (List ℕ)
pair_scorer = reset_scorer (λ ws. ws) pair_of four_weights both

abbrev pair_path : List (List ℕ) × Score ℕ
pair_path = together numbers 0 (λ ws. ws) pair_of four_weights both two_words

abbrev pair_scores : List (LogScore ℕ)
pair_scores = scores_alone both pair_of two_words

four_weights-length : length four_weights ≡ count_both pair_of + count_end pair_of
unfolding count_both count_end
four_weights-length = refl

scorer_end-together_example :
    (pair_path ≡ (
      states_alone both pair_of two_words,
      record {
        overall = record {
          log_value = both_sum numbers 0 (λ ws. ws) pair_of four_weights both pair_scores;
        };
        features = pair_scores;
      },
    ))
    × (scorer_end numbers pair_scorer 2 false pair_path.1 ≡ (
      record {
        overall = record {
          log_value = add_weighted numbers 0 four_weights (pair_scores ++ end_all 2 pair_of);
        };
        features = pair_scores;
      },
      end_all 2 pair_of,
    ))
    × ((scorer_end numbers pair_scorer 2 true pair_path.1).0.overall.log_value
        ≡ add_weighted numbers
            (numbers.times
              (both_sum numbers 0 (λ ws. ws) pair_of four_weights both pair_scores)
              (numbers.inverse 2))
            (drop (count_both pair_of) four_weights)
            (end_all 2 pair_of))
    × (length (end_all 2 pair_of) ≡ count_end pair_of)
scorer_end-together_example =
    scorer_end-together numbers 0 (λ ws. ws) pair_of four_weights both (taken 1 1) (taken 0 0 ∷ [])
      2 pair_of-AllSized four_weights-length

-- A bigram model that gives every word the length one.
abbrev bigram_models : List (LanguageModel ℕ ℕ)
bigram_models =
    record {
      order = 2;
      begin_sentence_state = 0;
      index = λ word. 5;
      not_found = 0;
      full_score = λ s word. ((word, 1), s);
    }
    ∷ []

bigram_orders : (i : ℕ) → i < 1 → 1 ≤ get_or (orders_of bigram_models) i 1
bigram_orders zero h = omega arith
bigram_orders (suc i) h = absurd (omega (arith, h))

lm_sentence-IsSized_example :
    IsSized
      (lm_sentence numbers 0 1 2 (finish_config true (orders_of bigram_models)) bigram_models both)
lm_sentence-IsSized_example =
    lm_sentence-IsSized numbers 0 1 2 true bigram_models both bigram_orders
