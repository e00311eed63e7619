-- ===== src/Decoder/Whole.antt =====
-- The search and the completion of what it finds, one after the other as in Run.
use memt.Prelude.{ℕ, ◌+◌, ◌<◌, List, arith, word_mod}
use memt.Input.{Input}
use memt.Beam.{Beam, value, slots}
use memt.Beam.Sound.{queued-slots_from}
use memt.Beam.Keeps.{Each-map}
use memt.Decoder.Hypothesis.{Setting, EndingHypothesis, blank_ending}
use memt.Decoder.Implementation.{Config, DecoderImpl, begin_run, run_loop}
use memt.Decoder.Laws.{IsFair}
use memt.Decoder.Rounds.Loop.{IsUsable}
use memt.Decoder.Complete.{PartialHistory, complete, endings_of}
use memt.Decoder.Complete.Ends.{HasEnded, IsEnding, completed_loop-ends}
use memt.Decoder.Ends.{IsShrinking, run-Deep, run-wide}

module _ {ℓ m} {D : Type ℓ} {P : Type m} (env : Setting D P) (fair : IsFair env) (Fit : P → Type 0)
    (left : P → ℕ) (most : ℕ) (shrinks : IsShrinking env Fit left most)
    (short : most + 2 < word_mod) (config : Config) (some_room : 0 < config.internal_beam_size)
    (end_room : 0 < config.end_beam_size) (top_of : List (PartialHistory D) → ℕ) (input : Input)
    (d : DecoderImpl D P) (usable : IsUsable env d) where
  abbrev found_endings : ℕ → Beam (EndingHypothesis D)
  found_endings rounds = (run_loop env config input rounds (begin_run env config input d)).ending

  -- MakeCompletedHypotheses ends on what the search has found after any rounds, with as many rounds of
  -- its own as the ending beam is large: no path is left, or the n-best list is full. The parameters are
  -- an order, an equality and heaps as documented, each extension by a word that the strategy offers
  -- leaves less to do, less than 2 ^ 32 with two more, the beams have a size of at least one, and the decoder is new or has been used before.
  pub complete-ends :
      (rounds : ℕ)
      → HasEnded env.double env.combine config.length_normalize top_of config.end_beam_size (
          complete env.double env.combine config.length_normalize top_of
            (blank_ending env)
            config.end_beam_size
            (found_endings rounds))
  unfolding complete
  complete-ends rounds =
      let b = found_endings rounds in
      let each =
        Each-map (IsEnding env.double env.combine config.length_normalize top_of)
          (value (blank_ending env) b.storage.owner) (slots b.storage)
          (λ i q.
            let (deep, two, few) =
              run-Deep env fair Fit left most shrinks short config some_room end_room input d usable
                rounds i
                (ground (arith, queued-slots_from (b.storage.size + 1) 0 b.storage.available i)) in
            (deep, two, omega (arith, few))) in
      rw
        (run-wide env fair Fit left most shrinks short config some_room end_room input d usable
          rounds)
        (completed_loop-ends env.double env.combine config.length_normalize top_of
          config.end_beam_size
          (endings_of env.double env.combine config.length_normalize top_of (blank_ending env) b)
          end_room each)
