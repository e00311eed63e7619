-- ===== src/Decoder/Rounds/Loop.antt =====
-- The rounds of the search, and what is kept from one to the next.
use memt.Prelude.{
  [], ℕ, zero, suc, add32, word_mod, ◌∙◌, ◌+◌, ◌<◌, ◌≡◌, refl, ap, arith, inl, inr, Bool-cases,
  ◌==◌, ◌⊎◌,
}
use memt.Input.{Input, get_word}
use mathlib.Core.Option.{none-ne-some}
use memt.Beam.Spare.{reset_beam-AreSpare, insert-AreSpare}
use memt.Beam.Sound.{reset_beam-IsSound}
use memt.Beam.{slots, find_equal, Beam, reset_beam}
use memt.Beam.Sound.{IsAllocated}
use memt.Beam.Keeps.{
  some_in_use, reset_beam-IsGood, insert-IsGood, destructive_increasing_vector-Each,
}
use memt.Decoder.Hypothesis.{
  blank_history, root_hypothesis, Setting, InternalHypothesis, EndingHypothesis, blank_internal,
}
use memt.Decoder.Implementation.{
  Config, DecoderImpl, available_in, in_increasing_order, extend_decreasing, extend_beam, run_loop,
  begin_run,
}
use memt.Decoder.Laws.{IsFair, internal-Laws, ending-Laws}
use memt.Decoder.Rounds.{
  IsNext, IsSpare, InternalSpare, InternalGood, EndingGood, IsKept, extend_decreasing-IsExtending,
}
use memt.Decoder.Rounds.Finish.{finish_slots-AreSpare, finish_all-IsGood}

-- A decoder that is new, or has been used before: its arrays have the sizes of their beams.
pub record IsUsable {ℓ m} {D : Type ℓ} {P : Type m} (env : Setting D P) (d : DecoderImpl D P)
    : Type (ℓ ⊔ m) where
  pub current_allocated : IsAllocated d.current.storage
  pub next_allocated : IsAllocated d.next.storage
  pub ending_allocated : IsAllocated d.ending.storage
  pub spare_current : InternalSpare env d.current
  pub spare_next : InternalSpare env d.next

module _ {ℓ m n} {D : Type ℓ} {P : Type m} (env : Setting D P) (fair : IsFair env) (config : Config)
    (Start Next : ℕ → InternalHypothesis D P → Type n) (End : EndingHypothesis D → Type n)
    (kept : IsKept env config Start Next End) (input : Input)
    (some_room : 0 < config.internal_beam_size) (end_room : 0 < config.end_beam_size) where
  -- Before a round: hypotheses of k words are in the current beam, and the next one is empty.
  pub record IsRound (k : ℕ) (d : DecoderImpl D P) : Type (ℓ ⊔ m ⊔ n) where
    pub current : InternalGood env (Start k) config.internal_beam_size d.current
    pub next : IsNext env fair config Start Next End kept input k d.next
    pub spare : InternalSpare env d.current
    pub ended : EndingGood env End config.end_beam_size d.ending
    pub counted : d.length ≡ k

  abbrev round : DecoderImpl D P → DecoderImpl D P
  round d = extend_beam env config input (record d { length = add32 d.length 1 })

  allocated {q} :
      (Good : InternalHypothesis D P → Type q) (max_size : ℕ) (b : Beam (InternalHypothesis D P))
      → InternalGood env Good max_size b
      → IsAllocated b.storage
  allocated Good max_size b g = inr g.merging.sound.sized

  extend_beam-IsRound :
      (k : ℕ) (d : DecoderImpl D P) → k + 1 < word_mod → IsRound k d → IsRound (k + 1) (round d)
  unfolding extend_beam
  extend_beam-IsRound k d short v =
      let order = in_increasing_order env d.current in
      let longer = record d { length = add32 d.length 1 } in
      let x =
        extend_decreasing-IsExtending env fair config Start Next End kept input k order longer
          (destructive_increasing_vector-Each _ _ _ _ _ (Start k) _ (internal-Laws env fair)
            d.current v.current)
          (record {
            growing = v.next;
            ended = v.ended;
            counted = ap (λ l. add32 l 1) v.counted ∙ ground (arith, short);
            standing = inr v.current.merging.sound.sized;
            spare_current = v.spare;
          }) in
      let extended = extend_decreasing env config input order longer in
      record {
        current =
            finish_all-IsGood env fair (Next (k + 1)) (Start (k + 1)) config.internal_beam_size
              (kept.finishes (k + 1)) extended.next x.growing.0;
        spare =
            finish_slots-AreSpare env (slots extended.next.storage) extended.next.storage.owner
              x.growing.1;
        next = (
          reset_beam-IsGood _ _ _ _ _ _ _ (internal-Laws env fair) extended.current some_room
              x.standing,
          reset_beam-AreSpare (blank_internal env) (IsSpare env) _ extended.current (inl refl)
              x.spare_current,
        );
        ended = x.ended;
        counted = x.counted;
      }

  -- The rounds that are run.
  pub run_loop-IsRound :
      (fuel k : ℕ) (d : DecoderImpl D P)
      → IsRound k d
      → (j : ℕ) × IsRound j (run_loop env config input fuel d)
        × ((run_loop env config input fuel d).current.storage.size ≡ 0 ⊎ (j ≡ k + fuel))
  unfolding run_loop
  run_loop-IsRound zero k d v = (k, v, inr (omega arith))
  run_loop-IsRound (suc fuel) k d v = elim (Bool-cases (d.current.storage.size == 0)) [
    | inl e ↦ rw (run_loop, e) (k, v, inl (ground arith))
    | inr e ↦
        let (i, u) = some_in_use d.current (ground arith) in
        let short = kept.short k _ (v.current.all i u) in
        let (j, w, last) =
          run_loop-IsRound fuel (k + 1) (round d) (extend_beam-IsRound k d short v) in
        rw (run_loop, e)
          (j, w, elim last [ inl none_left ↦ inl none_left | inr all ↦ inr (omega arith) ])
  ]

  abbrev used_before : DecoderImpl D P → InternalHypothesis D P
  used_before d =
      available_in (blank_internal env)
        (reset_beam (blank_internal env) config.internal_beam_size d.current)

  abbrev root : DecoderImpl D P → InternalHypothesis D P
  root d = root_hypothesis env (get_word input 0 0).text.canonical_hash config.end_beam_size (
      available_in (blank_internal env)
        (reset_beam (blank_internal env) config.internal_beam_size d.current))

  root-IsSpare :
      (begin : ℕ) (hyp : InternalHypothesis D P)
      → IsSpare env hyp
      → IsSpare env (root_hypothesis env begin config.end_beam_size hyp)
  unfolding root_hypothesis
  root-IsSpare begin hyp spare =
      inr
        (reset_beam-IsSound (blank_history env) config.end_beam_size hyp.previous end_room
          spare).sized

  -- What Run starts its loop with.
  pub begin_run-IsRound :
      (d : DecoderImpl D P) → IsUsable env d → IsRound 1 (begin_run env config input d)
  unfolding begin_run find_equal reset_beam
  begin_run-IsRound d u =
      let laws = internal-Laws env fair in
      let fresh =
        reset_beam-IsGood _ _ _ _ _ (Start 1) _ laws d.current some_room u.current_allocated in
      let spare =
        reset_beam-AreSpare (blank_internal env) (IsSpare env) config.internal_beam_size d.current
          (inl refl) u.spare_current in
      let begin = (get_word input 0 0).text.canonical_hash in
      record {
        current =
            insert-IsGood _ _ _ _ _ (Start 1) _ laws (λ a b e. kept.starts_join 1 a b) (root d) _
              (kept.begins begin (used_before d) (spare _)) fresh;
        next = (
          reset_beam-IsGood _ _ _ _ _ _ _ laws d.next some_room u.next_allocated,
          reset_beam-AreSpare (blank_internal env) (IsSpare env) config.internal_beam_size d.next
              (inl refl) u.spare_next,
        );
        spare =
            insert-AreSpare (blank_internal env) (IsSpare env) _ _ _ _ laws (root d) []
              (reset_beam (blank_internal env) config.internal_beam_size d.current) fresh.merging
              (λ i e. absurd (none-ne-some i e)) (root-IsSpare begin (used_before d) (spare _))
              spare;
        ended =
            reset_beam-IsGood _ _ _ _ _ _ _ (ending-Laws env fair) d.ending end_room
              u.ending_allocated;
        counted = refl;
      }
