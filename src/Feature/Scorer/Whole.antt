-- ===== src/Feature/Scorer/Whole.antt =====
-- MEMT/Feature/Scorer/Sentence.hh: the scores of a path, each feature's and overall.
use memt.Prelude.{
  ℕ, zero, suc, ◌+◌, ◌≤◌, ◌≡◌, ◌∙◌, refl, sym, ap, true, false, List, [], ◌∷◌, ◌++◌, take, drop,
  length, map, arith, length-append,
}
use memt.Input.{Input, Location, location}
use memt.Decoder.Score.{Doubles, LogScore, Score, normalize_by_length}
use memt.Decoder.History.{History, entry_of}
use memt.Feature.Scorer.{
  FeatureSentence, count_both, count_end, begin_all, extend_all, end_all, ScorerSentence,
  reset_scorer, add_weighted, recalculate_overall, scorer_begin, scorer_extend, scorer_end,
}

module _ {ℓ m} {D : Type ℓ} {S : Type m} where
  -- A feature gives as many scores as it says.
  pub record IsSized (f : FeatureSentence D S) : Type (ℓ ⊔ m) where
    pub begun : length f.begin.1 ≡ f.both_features
    pub extended :
        (input : Input) (h : History D) (l : Location) (s : S) (from : List (LogScore D))
        → length from ≡ f.both_features
        → length (f.extend input h l s from).1 ≡ f.both_features
    pub ended : (n : ℕ) → length (f.end n) ≡ f.end_features

  pub data AllSized : List (FeatureSentence D S) → Type (ℓ ⊔ m) where
    no_feature : AllSized []
    one_more :
        (f : FeatureSentence D S) (features : List (FeatureSentence D S))
        → IsSized f
        → AllSized features
        → AllSized (f ∷ features)

module _ {ℓ} {A : Type ℓ} where
  take-append : (xs ys : List A) (n : ℕ) → length xs ≡ n → take n (xs ++ ys) ≡ xs
  take-append [] ys zero h = refl
  take-append [] ys (suc n) h = absurd (omega (arith, h))
  take-append (x ∷ xs) ys zero h = absurd (omega (arith, h))
  take-append (x ∷ xs) ys (suc n) h = ap (λ l. x ∷ l) (take-append xs ys n (omega (arith, h)))

  drop-append : (xs ys : List A) (n : ℕ) → length xs ≡ n → drop n (xs ++ ys) ≡ ys
  drop-append [] ys zero h = refl
  drop-append [] ys (suc n) h = absurd (omega (arith, h))
  drop-append (x ∷ xs) ys zero h = absurd (omega (arith, h))
  drop-append (x ∷ xs) ys (suc n) h = drop-append xs ys n (omega (arith, h))

module _ {ℓ m} {D : Type ℓ} {S : Type m} (input : Input) where
  -- What one feature alone makes of a path, the last word first.
  unfoldable pub alone : FeatureSentence D S → List (History D) → S × List (LogScore D)
  alone f [] = f.begin
  alone f (h ∷ []) = f.begin
  alone f (a ∷ b ∷ path) =
      let from = alone f (b ∷ path) in
      f.extend input b (location (entry_of a).engine (entry_of a).offset) from.0 from.1

  -- The scores of all features alone, one after the other.
  unfoldable pub scores_alone : List (FeatureSentence D S) → List (History D) → List (LogScore D)
  scores_alone [] path = []
  scores_alone (f ∷ features) path = (alone f path).1 ++ scores_alone features path

  abbrev pub states_alone : List (FeatureSentence D S) → List (History D) → List S
  states_alone features path = map (λ f. (alone f path).0) features

  length-alone :
      (f : FeatureSentence D S) (path : List (History D))
      → IsSized f
      → length (alone f path).1 ≡ f.both_features
  unfolding alone
  length-alone f [] h = h.begun
  length-alone f (a ∷ []) h = h.begun
  length-alone f (a ∷ b ∷ path) h =
      h.extended input b _ _ (alone f (b ∷ path)).1 (length-alone f (b ∷ path) h)

  length-scores_alone :
      (features : List (FeatureSentence D S)) (path : List (History D))
      → AllSized features
      → length (scores_alone features path) ≡ count_both features
  unfolding scores_alone count_both
  length-scores_alone [] path no_feature = refl
  length-scores_alone (f ∷ features) path (one_more _ _ h hs) =
      length-append (alone f path).1 (scores_alone features path)
      ∙ omega (arith, length-alone f path h, length-scores_alone features path hs)

  begin_all-alone :
      (features : List (FeatureSentence D S)) (h : History D)
      → begin_all features ≡ (states_alone features (h ∷ []), scores_alone features (h ∷ []))
  unfolding begin_all scores_alone alone
  begin_all-alone [] h = refl
  begin_all-alone (f ∷ features) h = rw (begin_all-alone features h) refl

  extend_all-alone :
      (features : List (FeatureSentence D S)) (a b : History D) (path : List (History D))
      → AllSized features
      → extend_all input b
          (location (entry_of a).engine (entry_of a).offset)
          features
          (states_alone features (b ∷ path))
          (scores_alone features (b ∷ path))
        ≡ (states_alone features (a ∷ b ∷ path), scores_alone features (a ∷ b ∷ path))
  unfolding extend_all scores_alone alone
  extend_all-alone [] a b path no_feature = refl
  extend_all-alone (f ∷ features) a b path (one_more _ _ h hs) =
      let word = location (entry_of a).engine (entry_of a).offset in
      let old = alone f (b ∷ path) in
      let rest = scores_alone features (b ∷ path) in
      let size = length-alone f (b ∷ path) h in
      rw (take-append old.1 rest f.both_features size) (
        rw (drop-append old.1 rest f.both_features size)
          (rw (extend_all-alone features a b path hs) refl))

pub length-take {ℓ} : {A : Type ℓ} (n : ℕ) (xs : List A) → n ≤ length xs → length (take n xs) ≡ n
length-take zero xs h = refl
length-take (suc n) [] h = absurd (omega (arith, h))
length-take (suc n) (x ∷ xs) h = ap suc (length-take n xs (omega (arith, h)))

add_weighted-append {ℓ} :
    {D : Type ℓ} (double : Doubles D) (n : ℕ) (weights : List D) (xs ys : List (LogScore D))
    (sum : D)
    → length xs ≡ n
    → add_weighted double sum weights (xs ++ ys)
      ≡ add_weighted double (add_weighted double sum (take n weights) xs) (drop n weights) ys
unfolding add_weighted
add_weighted-append double zero weights [] ys sum h = refl
add_weighted-append double (suc n) weights [] ys sum h = absurd (omega (arith, h))
add_weighted-append double zero weights (x ∷ xs) ys sum h = absurd (omega (arith, h))
add_weighted-append double (suc n) [] (x ∷ xs) ys sum h = refl
add_weighted-append double (suc n) (w ∷ weights) (x ∷ xs) ys sum h =
    add_weighted-append double n weights xs ys _ (omega (arith, h))

module _ {ℓ m} {D : Type ℓ} {S : Type m} (double : Doubles D) (zero_log : D)
    (fuzz : List D → List D) (features : List (FeatureSentence D S)) (weights : List D)
    (input : Input) where
  abbrev pub scorer : ScorerSentence D S
  scorer = reset_scorer fuzz features weights input

  -- Begin, and an Extend for each word after the first.
  unfoldable pub together : List (History D) → List S × Score D
  together [] = scorer_begin double zero_log scorer
  together (h ∷ []) = scorer_begin double zero_log scorer
  together (a ∷ b ∷ path) =
      let from = together (b ∷ path) in
      scorer_extend double zero_log scorer b (location (entry_of a).engine (entry_of a).offset)
        from.0 from.1

  together-alone :
      (h : History D) (path : List (History D))
      → AllSized features
      → together (h ∷ path) ≡ (
        states_alone input features (h ∷ path),
        recalculate_overall double zero_log
            (take (count_both features) (fuzz weights))
            (scores_alone input features (h ∷ path)),
      )
  unfolding together scorer_begin scorer_extend recalculate_overall
  together-alone h [] sized = rw (begin_all-alone input features h) refl
  together-alone a (b ∷ path) sized =
      rw (together-alone b path sized) (rw (extend_all-alone input features a b path sized) refl)

  length-end_all :
      (features : List (FeatureSentence D S)) (words : ℕ)
      → AllSized features
      → length (end_all words features) ≡ count_end features
  unfolding end_all count_end
  length-end_all [] words no_feature = refl
  length-end_all (f ∷ features) words (one_more _ _ h hs) =
      length-append (f.end words) (end_all words features)
      ∙ omega (arith, h.ended words, length-end_all features words hs)

  -- The sum with the weights that Begin and Extend use.
  abbrev pub both_sum : List (LogScore D) → D
  both_sum scores = add_weighted double zero_log (take (count_both features) (fuzz weights)) scores

  -- When each feature gives as many scores as it says and there is a weight for each, then after
  -- Begin and an Extend for each word the states and the scores are what each feature alone makes of
  -- the words; End without normalization leaves these scores and makes the overall score the sum, from
  -- left to right, of all scores times their weights, of those with the features of the end behind
  -- them; End with normalization divides the sum of the former by the length before it adds the latter.
  pub scorer_end-together :
      (h : History D) (path : List (History D)) (words : ℕ)
      → AllSized features
      → length (fuzz weights) ≡ count_both features + count_end features
      → (together (h ∷ path) ≡ (
        states_alone input features (h ∷ path),
        record {
          overall = record { log_value = both_sum (scores_alone input features (h ∷ path)) };
          features = scores_alone input features (h ∷ path);
        },
      ))
        × (scorer_end double scorer words false (together (h ∷ path)).1 ≡ (
          record {
            overall = record {
              log_value =
                  add_weighted double zero_log
                    (fuzz weights)
                    (scores_alone input features (h ∷ path) ++ end_all words features);
            };
            features = scores_alone input features (h ∷ path);
          },
          end_all words features,
        ))
        × ((scorer_end double scorer words true (together (h ∷ path)).1).0.overall.log_value
            ≡ add_weighted double
                (double.times
                  (both_sum (scores_alone input features (h ∷ path)))
                  (double.inverse words))
                (drop (count_both features) (fuzz weights))
                (end_all words features))
        × (length (end_all words features) ≡ count_end features)
  unfolding scorer_end recalculate_overall normalize_by_length
  scorer_end-together h path words sized many =
      let all = together-alone h path sized in
      let size = length-take (count_both features) (fuzz weights) (omega (arith, many)) in
      (
        all,
        rw all (
            rw size (
              sym (
                rw
                  (add_weighted-append double (count_both features) (fuzz weights)
                    (scores_alone input features (h ∷ path)) (end_all words features) zero_log
                    (length-scores_alone input features (h ∷ path) sized))
                  refl))),
        rw all (rw size refl),
        length-end_all features words sized,
      )
