-- ===== src/Decoder/Ends.antt =====
-- The search ends, since a hypothesis can be extended only so often, and what it finds is completed: its
-- ending hypotheses are as long as they say.
use memt.Prelude.{◌⊎◌, ℕ, ◌+◌, ◌≤◌, ◌<◌, ◌≡◌, sym, subst, true, arith, word_mod, inl, inr}
use native.Mathlib.Decide.{ℕ_discrete}
use memt.Input.{Input, Location, location}
use memt.Input.Closure.{located}
use memt.Beam.{Beam}
use memt.Beam.Keeps.{some_in_use}
use memt.Decoder.Score.{Score}
use memt.Decoder.Hypothesis.{
  Setting, InternalHypothesis, root_hypothesis, extend_all_but_scorer, merge_hypothesis,
  finish_merging,
}
use memt.Decoder.Implementation.{Config, DecoderImpl, begin_run, run_loop}
use memt.Decoder.Laws.{IsFair}
use memt.Decoder.Viable.{extend_all_but_scorer-result}
use memt.Decoder.Rounds.{InternalGood, IsKept, IsOffered}
use memt.Decoder.Rounds.Loop.{begin_run-IsRound, run_loop-IsRound}
use memt.Decoder.Depth.{Deep}
use memt.Decoder.History.{History, entry_of}
use memt.Decoder.Hypothesis.{EndingHypothesis, set_ending, blank_ending}
use memt.Beam.{in_use, value}
use memt.Decoder.Rounds.Loop.{IsRound, IsUsable}
use memt.Decoder.Paths.Steps.{
  NextDeep, EndsDeep, begins-Deep, extends-Deep, merge_hypothesis-Deep, merge_hypothesis-NextDeep,
  finish_merging-Deep, set_ending-Deep,
}

-- What a strategy promises of the payloads it makes, which all are `Fit`: an extension by a location
-- that it offers leaves less to do, and there is never more than `most` in the beginning.
pub record IsShrinking {ℓ m} {D : Type ℓ} {P : Type m} (env : Setting D P) (Fit : P → Type 0)
    (left : P → ℕ) (most : ℕ) : Type (ℓ ⊔ m) where
  pub begins_fit : (p : P) (s : Score D) → Fit (env.strategy.begin p s).0
  pub begins_at_most : (p : P) (s : Score D) → left (env.strategy.begin p s).0 ≤ most
  pub stays_fit :
      (h : History D) (l : Location) (from to : P)
      → Fit from
      → located l (env.strategy.get_extensions h from) ≡ true
      → (env.strategy.extend_non_score l from to).0 ≡ true
      → Fit (env.strategy.extend_non_score l from to).1
  pub gets_less :
      (h : History D) (l : Location) (from to : P)
      → Fit from
      → located l (env.strategy.get_extensions h from) ≡ true
      → (env.strategy.extend_non_score l from to).0 ≡ true
      → left (env.strategy.extend_non_score l from to).1 < left from

module _ {ℓ m} {D : Type ℓ} {P : Type m} (env : Setting D P) (fair : IsFair env) (Fit : P → Type 0)
    (left : P → ℕ) (most : ℕ) (shrinks : IsShrinking env Fit left most)
    (narrow : most + 2 < word_mod) (config : Config) (some_room : 0 < config.internal_beam_size)
    (end_room : 0 < config.end_beam_size) where
  -- A hypothesis of k words: all ways through its history are so long, and with what is left the words
  -- are no more than in the beginning.
  record Starts (k : ℕ) (hyp : InternalHypothesis D P) : Type ℓ where
    pub deep : Deep k hyp.history
    pub fit : Fit hyp.payload
    pub few : left hyp.payload + k ≤ most + 1

  record Nexts (k : ℕ) (hyp : InternalHypothesis D P) : Type ℓ where
    pub deep : NextDeep env fair config end_room k hyp
    pub fit : Fit hyp.payload
    pub few : left hyp.payload + k ≤ most + 1

  record Ending (e : EndingHypothesis D) : Type ℓ where
    pub deep : EndsDeep env fair config end_room e
    pub few : e.length ≤ most + 2

  few-extends :
      (k : ℕ) (start hyp : InternalHypothesis D P) (scratch : History D)
      → Fit start.payload
      → left start.payload + k ≤ most + 1
      → IsOffered env start (location (entry_of scratch).engine (entry_of scratch).offset)
      → (extend_all_but_scorer env start config.end_beam_size scratch hyp).0 ≡ true
      → Fit (extend_all_but_scorer env start config.end_beam_size scratch hyp).1.payload
        × (left (extend_all_but_scorer env start config.end_beam_size scratch hyp).1.payload
              + (k + 1)
            ≤ most + 1)
  few-extends k start hyp scratch fit few offered viable =
      let (e, same) =
        extend_all_but_scorer-result env start hyp config.end_beam_size scratch viable in
      subst (λ (r : InternalHypothesis D P). Fit r.payload × (left r.payload + (k + 1) ≤ most + 1))
        (sym same)
        (
          shrinks.stays_fit _ _ start.payload hyp.payload fit offered e,
          omega (arith, few, shrinks.gets_less _ _ start.payload hyp.payload fit offered e),
        )

  words-IsKept : IsKept env config Starts Nexts Ending
  unfolding root_hypothesis merge_hypothesis finish_merging set_ending
  words-IsKept = record {
    begins = λ begin hyp spare. record {
      deep = begins-Deep env fair config end_room begin hyp;
      fit = shrinks.begins_fit hyp.payload _;
      few = omega (arith, shrinks.begins_at_most hyp.payload _);
    };
    extends = λ k start hyp scratch s spare offered viable.
        let (fit, few) = few-extends k start hyp scratch s.fit s.few offered viable in
        record {
          deep = extends-Deep env fair config end_room k start hyp scratch s.deep spare viable;
          fit = fit;
          few = few;
        };
    short = λ k hyp s. omega (arith, narrow, s.few);
    joins = λ k a b e p q. record {
      deep = merge_hypothesis-NextDeep env fair config end_room k a b p.deep q.deep;
      fit = p.fit;
      few = p.few;
    };
    spares = λ k hyp p. inr p.deep.0.good.merging.sound.sized;
    starts_join = λ k a b p q. record {
      deep = merge_hypothesis-Deep env fair config end_room k a b p.deep;
      fit = p.fit;
      few = p.few;
    };
    finishes = λ k hyp p. record {
      deep = finish_merging-Deep env fair config end_room k hyp p.deep;
      fit = p.fit;
      few = p.few;
    };
    ends = λ k start scratch hyp s. record {
      deep = set_ending-Deep env fair config end_room k start.history scratch hyp s.deep;
      few = omega (arith, s.few);
    };
  }

  none_left :
      (k : ℕ) (b : Beam (InternalHypothesis D P))
      → InternalGood env (Starts k) config.internal_beam_size b
      → most + 1 < k
      → b.storage.size ≡ 0
  none_left k b g much = elim (ℕ_discrete b.storage.size 0) [
    | yes e ↦ e
    | no some_left ↦
        let (i, u) = some_in_use b (omega arith) in absurd (omega (arith, (g.all i u).few, much))
  ]

  module _ (input : Input) (d : DecoderImpl D P) (usable : IsUsable env d) where
    abbrev ran : ℕ → DecoderImpl D P
    ran rounds = run_loop env config input rounds (begin_run env config input d)

    rounds-IsRound :
        (rounds : ℕ)
        → (j : ℕ) × IsRound env fair config Starts Nexts Ending words-IsKept input some_room
            end_room j
            (ran rounds)
          × ((ran rounds).current.storage.size ≡ 0 ⊎ (j ≡ 1 + rounds))
    rounds-IsRound rounds =
        run_loop-IsRound env fair config Starts Nexts Ending words-IsKept input some_room end_room
          rounds 1 _
          (begin_run-IsRound env fair config Starts Nexts Ending words-IsKept input some_room
            end_room d usable)

    -- After so many rounds the current beam is empty, so that the loop of Run ends: enough are one more
    -- than the strategy has left in the beginning, which with two more is less than 2 ^ 32, if each
    -- extension by a word that it offers leaves less. The parameters are an order, an equality and heaps
    -- as documented, the beams have a size of at least one, and the decoder is new or has been used
    -- before.
    pub run-ends : (ran (most + 1)).current.storage.size ≡ 0
    run-ends =
        let (j, v, last) = rounds-IsRound (most + 1) in
        elim last [ inl e ↦ e | inr e ↦ none_left j _ v.current (omega arith) ]

    -- At any time each ending hypothesis has at least two words and at most two more than the strategy
    -- has left in the beginning, and so many as its length says on each way from its history to the
    -- beginning of the sentence. The parameters are an order, an equality and heaps as documented, each
    -- extension by a word that the strategy offers leaves less to do, less than 2 ^ 32 with two more, the
    -- beams have a size of at least one, and the decoder is new or has been used before.
    pub run-Deep :
        (rounds i : ℕ)
        → in_use (ran rounds).ending.storage i ≡ true
        → let e = value (blank_ending env) (ran rounds).ending.storage.owner i in
          Deep e.length e.history × (1 < e.length) × (e.length ≤ most + 2)
    run-Deep rounds i u =
        let (j, v, _) = rounds-IsRound rounds in
        let e = v.ended.all i u in (e.deep.0, e.deep.1, e.few)

    pub run-wide : (rounds : ℕ) → (ran rounds).ending.storage.max_size ≡ config.end_beam_size
    run-wide rounds = let (j, v, _) = rounds-IsRound rounds in v.ended.wide
