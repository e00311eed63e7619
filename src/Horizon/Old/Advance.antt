-- ===== src/Horizon/Old/Advance.antt =====
-- AdvanceSkipPunctuation on the coverages that EnforceOldConstraints meets, those past the end of
-- the sentence included.
use native.Mathlib.Decide.{dec_lt}
use memt.Prelude.{ℕ, zero, suc, ◌+◌, ◌≤◌, ◌<◌, ◌≡◌, refl, false, arith, inl, inr, ◌⊎◌, word_mod}
use memt.Input.{Engine, engine_length}
use memt.Horizon.Coverage.{Coverage, use_frontier, Fits}
use memt.Horizon.Coverage.Set.{use_frontier-frontier-lt}
use memt.Horizon.Coverage.Canonical.{IsValid, IsValid-Fits, use_frontier-IsValid}
use memt.Horizon.Hypothesis.{at_punctuation, skip_loop, skip_punctuation, advance_skip_punctuation}
use memt.Horizon.Hypothesis.Skip.{skip_punctuation-Skipped}

-- A coverage of the sentence, or one that has run off its end.
abbrev pub IsSound : Engine → Coverage → Type 0
IsSound engine c = IsValid (engine_length engine) c ⊎ ((engine_length engine ≤ c.frontier) × Fits c)

module _ (engine : Engine) (room : engine_length engine + 1 < word_mod) where
  skip_past_end : (c : Coverage) → engine_length engine ≤ c.frontier → skip_punctuation engine c ≡ c
  unfolding skip_punctuation skip_loop
  skip_past_end c h = past (engine_length engine)
    where
      past : (fuel : ℕ) → skip_loop fuel engine c ≡ c
      past zero = refl
      past (suc fuel) = let stops : at_punctuation engine c ≡ false = ground arith in rw stops refl

  -- The frontier moves on, and within the sentence the coverage stays valid.
  abbrev pub Moves : Coverage → Coverage → Type 0
  Moves c d =
      (c.frontier < d.frontier)
      × (d.frontier < engine_length engine → IsValid (engine_length engine) d)

  inside-Moves :
      (c : Coverage)
      → IsValid (engine_length engine) c
      → c.frontier < engine_length engine
      → Moves c (advance_skip_punctuation engine c)
  unfolding advance_skip_punctuation
  inside-Moves c v k =
      let further = use_frontier-frontier-lt c (IsValid-Fits _ c room v) in
      let s =
        skip_punctuation-Skipped engine room (use_frontier c) (use_frontier-IsValid _ c room v k)
          (omega arith) in
      (omega (arith, s.forward), λ _. s.valid)

  past-Moves :
      (c : Coverage)
      → engine_length engine ≤ c.frontier
      → Fits c
      → Moves c (advance_skip_punctuation engine c)
  unfolding advance_skip_punctuation
  past-Moves c k f =
      let further = use_frontier-frontier-lt c f in
      rw (skip_past_end (use_frontier c) (omega arith)) (further, λ l. absurd (omega arith))

  pub advance-Moves :
      (c : Coverage) → IsSound engine c → Moves c (advance_skip_punctuation engine c)
  advance-Moves c (inr (k, f)) = past-Moves c k f
  advance-Moves c (inl v) = elim (dec_lt c.frontier (engine_length engine)) [
    | yes k ↦ inside-Moves c v k
    | no k ↦ past-Moves c (omega arith) (IsValid-Fits _ c room v)
  ]
