-- ===== src/Feature/Scorer/Sentences.antt =====
-- MEMT/Feature/Verbatim/Sentence.hh and MEMT/Feature/Length/Sentence.hh: two features, as the scorer
-- takes them.
use memt.Prelude.{ℕ, ◌≤◌, refl, List, [], ◌∷◌, length-replicate}
use memt.Decoder.Score.{Doubles}
use memt.Feature.Scorer.{FeatureSentence}
use memt.Feature.Scorer.Whole.{IsSized}
use memt.Feature.Verbatim.{Config, feature_count, begin_state, begin_scores, extend}
use memt.Feature.Verbatim.Runs.{length-extend_scores, length-run_lengths}

module _ {ℓ} {D : Type ℓ} (double : Doubles D) (zero_log one : D) (c : Config) where
  abbrev pub verbatim_sentence : FeatureSentence D (List ℕ)
  verbatim_sentence = record {
    both_features = feature_count c;
    end_features = 0;
    begin = (begin_state c, begin_scores zero_log c);
    extend = extend double one c;
    end = λ words. [];
  }

  pub verbatim_sentence-IsSized : c.individual ≤ c.collective → IsSized verbatim_sentence
  unfolding extend
  verbatim_sentence-IsSized wide = record {
    begun = length-replicate (feature_count c) _;
    extended = λ input h l s from size.
        length-extend_scores double one c (record { log_value = zero_log }) wide _ from
          (length-run_lengths c.num_systems c.mask _ _ s 0) size;
    ended = λ n. refl;
  }

-- The length as a score of the end; the state has no part in it.
module _ {ℓ m} {D : Type ℓ} {S : Type m} (linear : ℕ → D) (no_state : S) where
  abbrev pub length_sentence : FeatureSentence D S
  length_sentence = record {
    both_features = 0;
    end_features = 1;
    begin = (no_state, []);
    extend = λ input h l s from. (no_state, []);
    end = λ words. record { log_value = linear words } ∷ [];
  }

  pub length_sentence-IsSized : IsSized length_sentence
  length_sentence-IsSized = record {
    begun = refl;
    extended = λ input h l s from size. refl;
    ended = λ n. refl;
  }
