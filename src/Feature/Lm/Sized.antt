-- ===== src/Feature/Lm/Sized.antt =====
-- MEMT/Feature/LM/Sentence.hh: how many scores the feature of the language models has.
use memt.Prelude.{
  ℕ, suc, ◌+◌, ◌-◌, ◌≤◌, ◌<◌, map, ◌≡◌, ◌∙◌, refl, sym, length-modify, Bool, true, false, List, [],
  ◌∷◌, take, drop, get_or, length, ◌==◌, max, if◌then◌else◌, Bool-cases, inl, inr, length-append,
  length-map, ◌*◌, length-drop, length-replicate, arith,
}
use memt.Input.{Input, Location}
use memt.Decoder.Score.{Doubles, LogScore}
use memt.Feature.Lm.{
  LmConfig, sum_orders, finish_config, LanguageModel, model_features, count_one, length_counts,
  model_scores, extend_models, lm_sentence,
}
use memt.Feature.Scorer.Whole.{IsSized, length-take}

module _ {ℓ} {D : Type ℓ} (double : Doubles D) (one : D) where
  length-length_counts :
      (order n : ℕ) (from : List (LogScore D))
      → length (length_counts double one order n from) ≡ length from
  unfolding length_counts
  length-length_counts order n from = elim (Bool-cases (n == order)) [
    | inl e ↦ rw e refl
    | inr e ↦ rw e (length-modify (count_one double one) (max 1 n - 1) from)
  ]

  -- The scores by length, when there are any.
  length-some_counts :
      (b : Bool) (order n : ℕ) (from : List (LogScore D))
      → 2 + (if b then order - 1 else 0) ≤ length from
      → length (if b then length_counts double one order n (take (order - 1) (drop 2 from)) else [])
        ≡ (if b then order - 1 else 0)
  length-some_counts false order n from h = refl
  length-some_counts true order n from h =
      length-length_counts order n (take (order - 1) (drop 2 from))
      ∙ length-take (order - 1) (drop 2 from) (omega (arith, h, length-drop 2 from))

module _ {ℓ m} {D : Type ℓ} {S : Type m} (double : Doubles D) (zero_log one ln_10 : D)
    (c : LmConfig) where
  -- The scores of all models.
  unfoldable pub count_models : List (LanguageModel D S) → ℕ
  count_models [] = 0
  count_models (model ∷ models) =
      model_features double zero_log one ln_10 c model + count_models models

  length-model_scores :
      (model : LanguageModel D S) (word : ℕ) (ret : D × ℕ) (from : List (LogScore D))
      → model_features double zero_log one ln_10 c model ≤ length from
      → length (model_scores double zero_log one ln_10 c model word ret from)
        ≡ model_features double zero_log one ln_10 c model
  unfolding model_scores
  length-model_scores model word ret from h =
      omega (arith, length-some_counts double one c.by_length model.order ret.1 from h)

  length-extend_models :
      (append : Location) (models : List (LanguageModel D S)) (indices : List (List (List ℕ)))
      (states : List S) (from : List (LogScore D))
      → length from ≡ count_models models
      → length (extend_models double zero_log one ln_10 c append models indices states from).1
        ≡ count_models models
  unfolding extend_models count_models
  length-extend_models append [] indices states from h = refl
  length-extend_models append (model ∷ models) indices states from h =
      let word = get_or (get_or (get_or indices 0 []) append.engine []) append.offset 0 in
      let ret = model.full_score (get_or states 0 model.begin_sentence_state) word in
      length-append (model_scores double zero_log one ln_10 c model word ret.0 from) _
      ∙ omega (
        arith,
        length-model_scores model word ret.0 from (omega (arith, h)),
        length-extend_models append models (drop 1 indices) (drop 1 states)
            (drop (model_features double zero_log one ln_10 c model) from)
            (omega (arith, h, length-drop (model_features double zero_log one ln_10 c model) from)),
      )

  lm_sentence_of_count :
      (models : List (LanguageModel D S)) (input : Input)
      → c.count ≡ count_models models
      → IsSized (lm_sentence double zero_log one ln_10 c models input)
  lm_sentence_of_count models input right = record {
    begun = length-replicate c.count _;
    extended =
        λ later h l s from size. length-extend_models l models _ s from (size ∙ right) ∙ sym right;
    ended = λ n. refl;
  }

abbrev pub orders_of {ℓ m} : {D : Type ℓ} {S : Type m} → List (LanguageModel D S) → List ℕ
orders_of models = map (λ model. model.order) models

module _ {ℓ m} {D : Type ℓ} {S : Type m} (double : Doubles D) (zero_log one ln_10 : D) where
  count_models_long :
      (c : LmConfig) (models : List (LanguageModel D S))
      → c.by_length ≡ true
      → ((i : ℕ) → i < length models → 1 ≤ get_or (orders_of models) i 1)
      → length models + sum_orders (orders_of models)
        ≡ count_models double zero_log one ln_10 c models
  unfolding count_models sum_orders
  count_models_long c [] e h = refl
  count_models_long c (model ∷ models) e h = rw e (
      omega (
        arith,
        h 0 (omega arith),
        count_models_long c models e (λ i k. h (suc i) (omega (arith, k))),
      ))

  count_models_short :
      (c : LmConfig) (models : List (LanguageModel D S))
      → c.by_length ≡ false
      → 2 * length models ≡ count_models double zero_log one ln_10 c models
  unfolding count_models
  count_models_short c [] e = refl
  count_models_short c (model ∷ models) e = rw e (omega (arith, count_models_short c models e))

  count_models-finish_config :
      (by_length : Bool) (models : List (LanguageModel D S))
      → ((i : ℕ) → i < length models → 1 ≤ get_or (orders_of models) i 1)
      → (finish_config by_length (orders_of models)).count
        ≡ count_models double zero_log one ln_10 (finish_config by_length (orders_of models)) models
  count_models-finish_config true models h = omega (
    arith,
    length-map (λ (model : LanguageModel D S). model.order) models,
    count_models_long (finish_config true (orders_of models)) models refl h,
  )
  count_models-finish_config false models h = omega (
    arith,
    length-map (λ (model : LanguageModel D S). model.order) models,
    count_models_short (finish_config false (orders_of models)) models refl,
  )

  -- The configuration that the options give for the orders of the models, each at least one, counts the
  -- scores: Begin gives as many, and Extend of as many scores gives as many again.
  pub lm_sentence-IsSized :
      (by_length : Bool) (models : List (LanguageModel D S)) (input : Input)
      → ((i : ℕ) → i < length models → 1 ≤ get_or (orders_of models) i 1)
      → IsSized (
          lm_sentence double zero_log one ln_10
            (finish_config by_length (orders_of models))
            models
            input)
  lm_sentence-IsSized by_length models input h =
      lm_sentence_of_count double zero_log one ln_10 (finish_config by_length (orders_of models))
        models input (count_models-finish_config by_length models h)
