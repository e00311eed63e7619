-- ===== src/Decoder/Viable.antt =====
-- ExtendAllButScorer where it succeeds.
use mathlib.Core.Bool.{false≢true}
use memt.Prelude.{ℕ, ◌≡◌, ◌∙◌, refl, sym, Bool, true, false, Bool-cases, inl, inr}
use memt.Input.{location}
use memt.Beam.{reset_beam}
use memt.Decoder.History.{History, entry_of, make_hash, insert_history}
use memt.Decoder.Hypothesis.{Setting, InternalHypothesis, blank_history, extend_all_but_scorer}

module _ {ℓ m} {D : Type ℓ} {P : Type m} (env : Setting D P) (start hyp : InternalHypothesis D P)
    (top_n : ℕ) (scratch : History D) where
  abbrev pub extended : Bool × P
  extended =
      env.strategy.extend_non_score (location (entry_of scratch).engine (entry_of scratch).offset)
        start.payload hyp.payload

  abbrev pub result : InternalHypothesis D P
  result = record {
    history = scratch;
    payload = extended.1;
    previous =
        insert_history env.double env.combine env.history_bottom
          (make_hash env.double env.combine start.history)
          (reset_beam (blank_history env) top_n hyp.previous);
  }

  pub extend_all_but_scorer-result :
      (extend_all_but_scorer env start top_n scratch hyp).0 ≡ true
      → (extended.0 ≡ true) × ((extend_all_but_scorer env start top_n scratch hyp).1 ≡ result)
  unfolding extend_all_but_scorer
  extend_all_but_scorer-result viable = elim (Bool-cases extended.0) [
    | inl e ↦ (e, rw e refl)
    | inr e ↦ absurd (false≢true (sym (rw e refl) ∙ viable))
  ]

  -- Where it fails, the beam of histories stays.
  pub extend_all_but_scorer-refused :
      (extend_all_but_scorer env start top_n scratch hyp).0 ≡ false
      → (extend_all_but_scorer env start top_n scratch hyp).1.previous ≡ hyp.previous
  unfolding extend_all_but_scorer
  extend_all_but_scorer-refused refused = elim (Bool-cases extended.0) [
    | inl e ↦ absurd (false≢true (sym refused ∙ rw e refl))
    | inr e ↦ rw e refl
  ]
