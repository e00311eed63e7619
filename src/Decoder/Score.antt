-- ===== src/Decoder/Score.antt =====
-- MEMT/Decoder/Score.hh: the overall score and the features, and of util/log_num.hh what they use.
-- Double, the floating-point type that a LogScore has its logarithm in, is a parameter.
use memt.Prelude.{ℕ, Bool, List, [], ◌∷◌, map}

-- Double and what is done with it. `inverse` is 1.0 / length.
pub record Doubles {ℓ} (D : Type ℓ) : Type ℓ where
  pub minus_infinity : D
  pub below : D → D → Bool
  pub same : D → D → Bool
  pub plus : D → D → D
  pub minus : D → D → D
  pub times : D → D → D
  pub inverse : ℕ → D

pub record LogScore {ℓ} (D : Type ℓ) : Type ℓ where
  pub log_value : D

pub record Score {ℓ} (D : Type ℓ) : Type ℓ where
  pub overall : LogScore D
  pub features : List (LogScore D)

module _ {ℓ} {D : Type ℓ} (double : Doubles D) where
  -- The default constructor: zero.
  abbrev pub zero_score : LogScore D
  zero_score = record { log_value = double.minus_infinity }

  -- LogNum::operator*=
  abbrev pub times : LogScore D → LogScore D → LogScore D
  times to by = record { log_value = double.plus to.log_value by.log_value }

  -- LogNum::operator/=
  abbrev pub over : LogScore D → LogScore D → LogScore D
  over to by = record { log_value = double.minus to.log_value by.log_value }

  -- PowEquals
  abbrev pub to_power : D → LogScore D → LogScore D
  to_power exponent s = record { log_value = double.times s.log_value exponent }

  abbrev pub unset_score : Score D
  unset_score = record { overall = zero_score; features = [] }

  -- NormalizeByLength
  unfoldable pub normalize_by_length : ℕ → Score D → Score D
  normalize_by_length length s = record {
    overall = to_power (double.inverse length) s.overall;
    features = map (to_power (double.inverse length)) s.features;
  }

  abbrev pub is_below : Score D → Score D → Bool
  is_below left right = double.below left.overall.log_value right.overall.log_value

  -- The features of two scores, which have equal lengths, one by one.
  unfoldable pub each_feature :
      (LogScore D → LogScore D → LogScore D)
      → List (LogScore D)
      → List (LogScore D)
      → List (LogScore D)
  each_feature op to [] = to
  each_feature op [] (b ∷ by) = []
  each_feature op (t ∷ to) (b ∷ by) = op t b ∷ each_feature op to by

  -- operator/=
  unfoldable pub divide_by : Score D → Score D → Score D
  unfolding each_feature
  divide_by to by = record {
    overall = over to.overall by.overall;
    features = each_feature over to.features by.features;
  }

  -- operator*=
  unfoldable pub multiply_by : Score D → Score D → Score D
  unfolding each_feature
  multiply_by to by = record {
    overall = times to.overall by.overall;
    features = each_feature times to.features by.features;
  }
