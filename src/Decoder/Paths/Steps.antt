-- ===== src/Decoder/Paths/Steps.antt =====
-- The hypotheses of a round have as many words as the round says, on each way back through the lattice.
use memt.Prelude.{ℕ, ◌+◌, ◌-◌, ◌<◌, ◌≡◌, ◌∙◌, refl, sym, subst, true, [], ◌∷◌, arith}
use memt.Beam.Sound.{IsAllocated}
use memt.Beam.Keeps.{reset_beam-IsGood}
use memt.Decoder.History.{History, make_hash, from_list, dump_beam, root_history}
use memt.Decoder.Hypothesis.{
  Setting, InternalHypothesis, EndingHypothesis, root_hypothesis, extend_all_but_scorer,
  merge_hypothesis, finish_merging, set_ending,
}
use memt.Decoder.Implementation.{Config}
use memt.Decoder.Laws.{IsFair, history-Laws}
use memt.Decoder.Depth.{is_deep, Deep, is_deep-with_entry, is_deep-make_hash}
use memt.Decoder.Viable.{extend_all_but_scorer-result, result}
use memt.Decoder.Paths.{
  HasDeep, Deep-positive, insert_history-HasDeep, merge_size_one-HasDeep, finished-Deep,
  dump_beam-Deep,
}

module _ {ℓ m} {D : Type ℓ} {P : Type m} (env : Setting D P) (fair : IsFair env) (config : Config)
    (end_room : 0 < config.end_beam_size) where
  abbrev pub StartsDeep : ℕ → InternalHypothesis D P → Type 0
  StartsDeep k hyp = Deep k hyp.history

  abbrev pub NextDeep : ℕ → InternalHypothesis D P → Type ℓ
  NextDeep k hyp = HasDeep env fair config end_room (k - 1) hyp.previous × (1 < k)

  abbrev pub EndsDeep : EndingHypothesis D → Type 0
  EndsDeep e = Deep e.length e.history × (1 < e.length)

  pub set_ending-Deep :
      (k : ℕ) (start : History D) (scratch : History D) (hyp : EndingHypothesis D)
      → Deep k start
      → EndsDeep (set_ending env scratch start (k + 1) hyp)
  unfolding set_ending from_list
  set_ending-Deep k start scratch hyp d = (
    finished-Deep env fair config end_room k (start ∷ []) scratch (omega arith) (d, tt)
        (Deep-positive env fair config end_room k start d),
    omega (arith, Deep-positive env fair config end_room k start d),
  )

  pub begins-Deep :
      (begin : ℕ) (hyp : InternalHypothesis D P)
      → StartsDeep 1 (root_hypothesis env begin config.end_beam_size hyp)
  unfolding root_hypothesis root_history make_hash is_deep
  begins-Deep begin hyp = refl

  pub extends-Deep :
      (k : ℕ) (start hyp : InternalHypothesis D P) (scratch : History D)
      → StartsDeep k start
      → IsAllocated hyp.previous.storage
      → (extend_all_but_scorer env start config.end_beam_size scratch hyp).0 ≡ true
      → NextDeep (k + 1) (extend_all_but_scorer env start config.end_beam_size scratch hyp).1
  extends-Deep k start hyp scratch d spare viable =
      let (_, same) =
        extend_all_but_scorer-result env start hyp config.end_beam_size scratch viable in
      let less_one : k ≡ k + 1 - 1 = omega arith in
      subst (NextDeep (k + 1)) (sym same) (
        subst
            (λ j.
              HasDeep env fair config end_room j
                (result env start hyp config.end_beam_size scratch).previous)
            less_one
            (insert_history-HasDeep env fair config end_room k
              (make_hash env.double env.combine start.history) _
              (is_deep-make_hash env.double env.combine start.history k ∙ d)
              (reset_beam-IsGood _ _ _ _ _ _ _ (history-Laws env fair) hyp.previous end_room
                spare)),
        omega (arith, Deep-positive env fair config end_room k start.history d),
      )

  pub merge_hypothesis-Deep :
      (k : ℕ) (a b : InternalHypothesis D P)
      → StartsDeep k a
      → StartsDeep k (merge_hypothesis env a b).0
  unfolding merge_hypothesis
  merge_hypothesis-Deep k a b d = is_deep-with_entry _ a.history k ∙ d

  pub merge_hypothesis-NextDeep :
      (k : ℕ) (a b : InternalHypothesis D P)
      → NextDeep k a
      → NextDeep k b
      → NextDeep k (merge_hypothesis env a b).0
  unfolding merge_hypothesis
  merge_hypothesis-NextDeep k a b (p, many) (q, _) =
      (merge_size_one-HasDeep env fair config end_room (k - 1) a.previous b.previous p q, many)

  pub finish_merging-Deep :
      (k : ℕ) (hyp : InternalHypothesis D P)
      → NextDeep k hyp
      → StartsDeep k (finish_merging env hyp)
  unfolding finish_merging
  finish_merging-Deep k hyp (p, many) =
      let again : k - 1 + 1 ≡ k = omega arith in
      subst
        (λ j. Deep j (dump_beam env.double env.combine env.history_bottom hyp.previous hyp.history))
        again
        (dump_beam-Deep env fair config end_room (k - 1) hyp.previous hyp.history p (omega arith))
