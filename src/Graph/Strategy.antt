-- ===== src/Graph/Strategy.antt =====
-- MEMT/Strategy/Graph/Sentence.hh and Hypothesis.hh: the strategy that the decoder is run with, which
-- passes on to the coverage and the scorer. The scorer, MEMT/Strategy/Scorer, is not in the repository
-- and is a record of its operations. Its End has no features of the end, so those of the decoder stay.
use memt.Prelude.{
  ℕ, ◌≡◌, ◌<◌, ◌+◌, word_mod, ◌∙◌, Bool, true, false, not, ◌&&◌, List, [], ◌∷◌, length,
  if◌then◌else◌, length-replicate, arith,
}
use memt.Input.{Input, Location, location}
use memt.Decoder.Score.{Score}
use memt.Decoder.History.{History, entry_of}
use memt.Decoder.Hypothesis.{Strategy, Setting}
use memt.Decoder.Implementation.{Config, DecoderImpl, begin_run, run_loop}
use memt.Decoder.Laws.{IsFair}
use memt.Decoder.Rounds.Loop.{IsUsable}
use memt.Decoder.Ends.{IsShrinking, run-ends}
use memt.Graph.{bit_size, begin_bits, extend_bits, graph_extensions}
use memt.Graph.Clear.{
  count_clear, count_clear-replicate, length-extend_bits, IsSelfAligned, count_clear-extend_bits,
}

pub record GraphHypothesis {ℓ} (S : Type ℓ) : Type ℓ where
  pub coverage : List Bool
  pub scorer : S

pub record GraphScorer {ℓ m} (D : Type ℓ) (S : Type m) : Type (ℓ ⊔ m) where
  pub begin : S → Score D → S × Score D
  pub extend : History D → Location → S → Score D → S → Score D → S × Score D
  pub end : ℕ → Bool → Score D → Score D
  pub same : S → S → Bool

unfoldable pub eq_bits : List Bool → List Bool → Bool
eq_bits [] [] = true
eq_bits [] (c ∷ right) = false
eq_bits (b ∷ left) [] = false
eq_bits (b ∷ left) (c ∷ right) = (if b then c else not c) && eq_bits left right

-- operator==
unfoldable pub eq_graph {ℓ} :
    {S : Type ℓ} → (S → S → Bool) → GraphHypothesis S → GraphHypothesis S → Bool
unfolding eq_bits
eq_graph same left right = eq_bits left.coverage right.coverage && same left.scorer right.scorer

abbrev pub graph_strategy {ℓ m} :
    {D : Type ℓ} {S : Type m} → GraphScorer D S → Input → Strategy D (GraphHypothesis S)
graph_strategy scorer text = record {
  begin = λ hypothesis scores.
      let (state, begun) = scorer.begin hypothesis.scorer scores in
      (record { coverage = begin_bits text; scorer = state }, begun);
  get_extensions = λ history of.
      graph_extensions text (location (entry_of history).engine (entry_of history).offset)
        of.coverage;
  extend_score = λ history l from from_score to to_score.
      let (state, score) = scorer.extend history l from.scorer from_score to.scorer to_score in
      (record to { scorer = state }, score);
  extend_non_score = λ l from to. (true, record to { coverage = extend_bits text l from.coverage });
  end_score =
      λ words normalize adjust end_features. (scorer.end words normalize adjust, end_features);
  same_payload = eq_graph scorer.same;
  location_relevant = true;
}

-- With the graph strategy each extension leaves fewer bits clear. The conditions: the alignments are to
-- words of the sentences, and each word is aligned to itself.
pub graph_strategy-IsShrinking {ℓ m} :
    {D : Type ℓ} {S : Type m} (env : Setting D (GraphHypothesis S)) (scorer : GraphScorer D S)
    (text : Input)
    → IsSelfAligned text
    → IsShrinking
        (record env { strategy = graph_strategy scorer text })
        (λ p. length p.coverage ≡ bit_size 0 text.engines)
        (λ p. count_clear p.coverage)
        (bit_size 0 text.engines)
unfolding begin_bits
graph_strategy-IsShrinking env scorer text aligned = record {
  begins_fit = λ p s. length-replicate (bit_size 0 text.engines) false;
  begins_at_most = λ p s. omega (arith, count_clear-replicate (bit_size 0 text.engines));
  stays_fit = λ h l from to sized offered viable. length-extend_bits text l from.coverage ∙ sized;
  gets_less = λ h l from to sized offered viable.
      count_clear-extend_bits text (location (entry_of h).engine (entry_of h).offset) l
        from.coverage aligned sized offered;
}

-- With the graph strategy the loop of Run ends: after one round more than there are words the current beam
-- is empty. The conditions: the alignments are to words of the sentences, each word is aligned to itself, the
-- number of words with two more fits in 32 bits, the other parameters are an order, an equality and heaps as
-- documented, the beams have a size of at least one, and the decoder is new or has been used before.
pub graph_search-ends {ℓ m} :
    {D : Type ℓ} {S : Type m} (env : Setting D (GraphHypothesis S)) (scorer : GraphScorer D S)
    (text : Input) (config : Config) (d : DecoderImpl D (GraphHypothesis S))
    → IsSelfAligned text
    → IsFair (record env { strategy = graph_strategy scorer text })
    → bit_size 0 text.engines + 2 < word_mod
    → 0 < config.internal_beam_size
    → 0 < config.end_beam_size
    → IsUsable (record env { strategy = graph_strategy scorer text }) d
    → (run_loop
        (record env { strategy = graph_strategy scorer text })
        config
        text
        (bit_size 0 text.engines + 1)
        (begin_run
          (record env { strategy = graph_strategy scorer text })
          config
          text
          d)).current.storage.size
      ≡ 0
graph_search-ends env scorer text config d aligned fair few some_room end_room usable =
    run-ends (record env { strategy = graph_strategy scorer text }) fair
      (λ p. length p.coverage ≡ bit_size 0 text.engines) (λ p. count_clear p.coverage)
      (bit_size 0 text.engines) (graph_strategy-IsShrinking env scorer text aligned) few config
      some_room end_room text d usable
