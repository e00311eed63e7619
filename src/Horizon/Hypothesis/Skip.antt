-- ===== src/Horizon/Hypothesis/Skip.antt =====
-- SkipPunctuation ends, on the first word that is no punctuation, and skips no other word.
use native.Mathlib.Decide.{ℕ_discrete}
use memt.Prelude.{
  ℕ, zero, suc, ◌+◌, ◌≤◌, ◌<◌, ◌≡◌, true, false, arith, inl, inr, Bool-cases, &&-true, word_mod,
  ltb→lt,
}
use memt.Input.{Engine, engine_length}
use memt.Horizon.Coverage.{Coverage, use_frontier, is_used}
use memt.Horizon.Coverage.Set.{is_used-use_frontier, use_frontier-frontier-lt}
use memt.Horizon.Coverage.Canonical.{IsValid, IsValid-Fits, use_frontier-IsValid}
use memt.Horizon.Hypothesis.{word_at, at_punctuation, skip_loop, skip_punctuation}

-- From `c` to `d` only punctuation marks were skipped.
pub record Skipped (engine : Engine) (c d : Coverage) : Type 0 where
  pub valid : IsValid (engine_length engine) d
  pub forward : c.frontier ≤ d.frontier
  pub settled : at_punctuation engine d ≡ false
  pub only :
      (o : ℕ)
      → o < word_mod
      → is_used d o ≡ true
      → is_used c o ≡ false
      → (word_at engine o).text.is_punctuation ≡ true
  pub keeps : (o : ℕ) → o < word_mod → is_used c o ≡ true → is_used d o ≡ true

module _ (engine : Engine) (room : engine_length engine + 1 < word_mod) where
  skip_loop-Skipped :
      (fuel : ℕ) (c : Coverage)
      → engine_length engine < c.frontier + suc fuel
      → IsValid (engine_length engine) c
      → Skipped engine c (skip_loop fuel engine c)
  unfolding skip_loop
  skip_loop-Skipped zero c f v = record {
    valid = v;
    forward = omega arith;
    settled = ground arith;
    only = λ o s a b. ground arith;
    keeps = λ o s a. a;
  }
  skip_loop-Skipped (suc fuel) c f v = elim (Bool-cases (at_punctuation engine c)) [
    | inr stops ↦ rw stops (record {
      valid = v;
      forward = omega arith;
      settled = stops;
      only = λ o s a b. ground arith;
      keeps = λ o s a. a;
    })
    | inl goes ↦
        let fits = IsValid-Fits (engine_length engine) c room v in
        let inside : c.frontier < engine_length engine = ltb→lt _ _ (&&-true goes).0 in
        let later = use_frontier-frontier-lt c fits in
        let s =
          skip_loop-Skipped fuel (use_frontier c) (omega arith)
            (use_frontier-IsValid (engine_length engine) c room v inside) in
        rw goes (record {
          valid = s.valid;
          forward = omega (arith, s.forward);
          settled = s.settled;
          only = λ o k a b. elim (ℕ_discrete o c.frontier) [
            | yes same ↦ rw same (&&-true goes).1
            | no other ↦ s.only o k a (ground (arith, is_used-use_frontier c o fits k))
          ];
          keeps = λ o k a. s.keeps o k (ground (arith, is_used-use_frontier c o fits k));
        })
  ]

  pub skip_punctuation-Skipped :
      (c : Coverage)
      → IsValid (engine_length engine) c
      → 0 < c.frontier
      → Skipped engine c (skip_punctuation engine c)
  unfolding skip_punctuation
  skip_punctuation-Skipped c v h = skip_loop-Skipped (engine_length engine) c (omega arith) v
