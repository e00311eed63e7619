-- ===== src/Feature/Lm.antt =====
-- MEMT/Feature/LM/Sentence.{hh,cc}: the feature of the language models. A model, of KenLM, is a record
-- of its operations. That order - 1 counts have room for every length that full_score gives is left to it.
pub mod Sized
use Prim.Native.String.{String}
use memt.Prelude.{
  ℕ, zero, suc, ◌+◌, ◌-◌, ◌*◌, length, ◌==◌, max, Bool, List, [], ◌∷◌, ◌++◌, if◌then◌else◌, get_or,
  take, drop, map, modify, replicate,
}
use memt.Input.{Input, Location}
use memt.Decoder.Score.{Doubles, LogScore, zero_score, times}
use memt.Decoder.History.{History}
use memt.Feature.Scorer.{FeatureSentence}

pub record LanguageModel {ℓ m} (D : Type ℓ) (S : Type m) : Type (ℓ ⊔ m) where
  pub order : ℕ
  pub begin_sentence_state : S
  pub index : String → ℕ
  pub not_found : ℕ
  pub full_score : S → ℕ → (D × ℕ) × S

pub record LmConfig : Type 0 where
  pub by_length : Bool
  pub count : ℕ

unfoldable pub sum_orders : List ℕ → ℕ
sum_orders [] = 0
sum_orders (order ∷ orders) = order + sum_orders orders

-- Finish of the options
abbrev pub finish_config : Bool → List ℕ → LmConfig
finish_config by_length orders = record {
  by_length = by_length;
  count =
      if by_length
      then 2 * length orders + sum_orders orders - length orders
      else 2 * length orders;
}

-- LookupVocab
abbrev pub lookup_vocab : (String → ℕ) → Input → List (List ℕ)
lookup_vocab index input =
    map (λ engine. map (λ word. index word.text.canonical) engine.words) input.engines

module _ {ℓ} {D : Type ℓ} (double : Doubles D) (one : D) where
  abbrev pub count_one : LogScore D → LogScore D
  count_one s = record { log_value = double.plus s.log_value one }

  -- The counts by length, when full_score gives the length.
  unfoldable pub length_counts : ℕ → ℕ → List (LogScore D) → List (LogScore D)
  length_counts order ngram_length from =
      if ngram_length == order then from else modify count_one (max 1 ngram_length - 1) from

module _ {ℓ m} {D : Type ℓ} {S : Type m} (double : Doubles D) (zero_log one ln_10 : D)
    (c : LmConfig) where
  -- How many scores a model has.
  abbrev pub model_features : LanguageModel D S → ℕ
  model_features model = 2 + (if c.by_length then model.order - 1 else 0)

  -- The scores of one model.
  unfoldable pub model_scores :
      LanguageModel D S → ℕ → D × ℕ → List (LogScore D) → List (LogScore D)
  unfolding length_counts
  model_scores model word ret from =
      let oov = get_or from 1 (zero_score double) in
      times double (get_or from 0 (zero_score double))
        (record { log_value = double.times ret.0 ln_10 })
      ∷ (if word == model.not_found then count_one double one oov else oov)
      ∷ (if c.by_length
          then length_counts double one model.order ret.1 (take (model.order - 1) (drop 2 from))
          else [])

  -- The loop of Extend over the models, with their tables of words.
  unfoldable pub extend_models :
      Location
      → List (LanguageModel D S)
      → List (List (List ℕ))
      → List S
      → List (LogScore D)
      → List S × List (LogScore D)
  unfolding model_scores
  extend_models append [] indices states from = ([], [])
  extend_models append (model ∷ models) indices states from =
      let word = get_or (get_or (get_or indices 0 []) append.engine []) append.offset 0 in
      let ret = model.full_score (get_or states 0 model.begin_sentence_state) word in
      let rest =
        extend_models append models (drop 1 indices) (drop 1 states)
          (drop (model_features model) from) in
      (ret.1 ∷ rest.0, model_scores model word ret.0 from ++ rest.1)

  -- The sentence after Reset.
  abbrev pub lm_sentence : List (LanguageModel D S) → Input → FeatureSentence D (List S)
  lm_sentence models reset_to = record {
    both_features = c.count;
    end_features = 0;
    begin = (
      map (λ (model : LanguageModel D S). model.begin_sentence_state) models,
      replicate c.count (record { log_value = zero_log }),
    );
    extend = λ input history append from_state from_scores.
        extend_models append models
          (map (λ (model : LanguageModel D S). lookup_vocab model.index reset_to) models) from_state
          from_scores;
    end = λ words. [];
  }
