-- ===== src/Feature/Scorer.antt =====
-- MEMT/Feature/Scorer/Sentence.hh: the features together, each of which has its part of the scores.
-- The tuple of features is a list over one type of states; the fuzzing of the weights, which is
-- random, is a parameter. The scores a feature writes are what its operation gives.
pub mod Sentences
pub mod Whole
use memt.Prelude.{ℕ, zero, suc, ◌+◌, Bool, List, [], ◌∷◌, ◌++◌, if◌then◌else◌, take, drop, length}
use memt.Input.{Input, Location}
use memt.Decoder.Score.{Doubles, LogScore, Score, normalize_by_length}
use memt.Decoder.History.{History}

-- The operations of a feature on its state S and its scores.
pub record FeatureSentence {ℓ m} (D : Type ℓ) (S : Type m) : Type (ℓ ⊔ m) where
  pub both_features : ℕ
  pub end_features : ℕ
  pub begin : S × List (LogScore D)
  pub extend : Input → History D → Location → S → List (LogScore D) → S × List (LogScore D)
  pub end : ℕ → List (LogScore D)

-- The folds on the counts.
unfoldable pub count_both {ℓ m} : {D : Type ℓ} {S : Type m} → List (FeatureSentence D S) → ℕ
count_both [] = 0
count_both (f ∷ features) = f.both_features + count_both features

unfoldable pub count_end {ℓ m} : {D : Type ℓ} {S : Type m} → List (FeatureSentence D S) → ℕ
count_end [] = 0
count_end (f ∷ features) = f.end_features + count_end features

-- BeginFold
unfoldable pub begin_all {ℓ m} :
    {D : Type ℓ} {S : Type m} → List (FeatureSentence D S) → List S × List (LogScore D)
begin_all [] = ([], [])
begin_all (f ∷ features) =
    let rest = begin_all features in (f.begin.0 ∷ rest.0, f.begin.1 ++ rest.1)

-- ExtendFold, which goes through the old scores and the new ones at once.
unfoldable pub extend_all {ℓ m} :
    {D : Type ℓ} {S : Type m}
    → Input
    → History D
    → Location
    → List (FeatureSentence D S)
    → List S
    → List (LogScore D)
    → List S × List (LogScore D)
extend_all input history append [] states from = ([], [])
extend_all input history append (f ∷ features) [] from = ([], [])
extend_all input history append (f ∷ features) (s ∷ states) from =
    let one = f.extend input history append s (take f.both_features from) in
    let rest = extend_all input history append features states (drop f.both_features from) in
    (one.0 ∷ rest.0, one.1 ++ rest.1)

-- EndFold
unfoldable pub end_all {ℓ m} :
    {D : Type ℓ} {S : Type m} → ℕ → List (FeatureSentence D S) → List (LogScore D)
end_all length [] = []
end_all length (f ∷ features) = f.end length ++ end_all length features

-- The sentence after Reset.
pub record ScorerSentence {ℓ m} (D : Type ℓ) (S : Type m) : Type (ℓ ⊔ m) where
  pub features : List (FeatureSentence D S)
  pub input : Input
  pub weights : List D
  pub fuzzed_all_weights : List D
  pub fuzzed_both_weights : List D

abbrev pub reset_scorer {ℓ m} :
    {D : Type ℓ} {S : Type m}
    → (List D → List D)
    → List (FeatureSentence D S)
    → List D
    → Input
    → ScorerSentence D S
reset_scorer fuzz features weights input = record {
  features = features;
  input = input;
  weights = weights;
  fuzzed_all_weights = fuzz weights;
  fuzzed_both_weights = take (count_both features) (fuzz weights);
}

module _ {ℓ} {D : Type ℓ} (double : Doubles D) where
  -- The loops that add each score times its weight.
  unfoldable pub add_weighted : D → List D → List (LogScore D) → D
  add_weighted sum [] scores = sum
  add_weighted sum (w ∷ weights) [] = sum
  add_weighted sum (w ∷ weights) (s ∷ scores) =
      add_weighted (double.plus sum (double.times s.log_value w)) weights scores

module _ {ℓ} {D : Type ℓ} (double : Doubles D) (zero_log : D) where
  -- RecalculateOverall
  unfoldable pub recalculate_overall : List D → List (LogScore D) → Score D
  unfolding add_weighted
  recalculate_overall weights scores = record {
    overall = record { log_value = add_weighted double zero_log weights scores };
    features = scores;
  }

  unfoldable pub scorer_begin {m} : {S : Type m} → ScorerSentence D S → List S × Score D
  unfolding begin_all recalculate_overall
  scorer_begin c =
      let all = begin_all c.features in (all.0, recalculate_overall c.fuzzed_both_weights all.1)

  unfoldable pub scorer_extend {m} :
      {S : Type m} → ScorerSentence D S → History D → Location → List S → Score D → List S × Score D
  unfolding extend_all recalculate_overall
  scorer_extend c history append states from =
      let all = extend_all c.input history append c.features states from.features in
      (all.0, recalculate_overall c.fuzzed_both_weights all.1)

-- The scores of the whole sentence, with those that are only known at its end.
unfoldable pub scorer_end {ℓ m} :
    {D : Type ℓ} {S : Type m}
    → Doubles D
    → ScorerSentence D S
    → ℕ
    → Bool
    → Score D
    → Score D × List (LogScore D)
unfolding end_all add_weighted
scorer_end double c words normalize score =
    let normal = if normalize then normalize_by_length double words score else score in
    let ends = end_all words c.features in
    (
      record {
        overall = record {
          log_value =
              add_weighted double normal.overall.log_value
                (drop (length c.fuzzed_both_weights) c.fuzzed_all_weights) ends;
        };
        features = normal.features;
      },
      ends,
    )
