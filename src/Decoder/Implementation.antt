-- ===== src/Decoder/Implementation.antt =====
-- MEMT/Decoder/Implementation.hh: the search itself. It keeps three beams, extends each hypothesis of
-- the current one by the words that the strategy names, and swaps the current with the next one.
use memt.Prelude.{ℕ, zero, suc, add32, ◌==◌, Bool, true, false, List, [], ◌∷◌, if◌then◌else◌, set}
use memt.Input.{Input, Location, get_word}
use memt.Beam.{
  Beam, Dupe, hash_dupe, one_best_merge, value, slots, may_make_it, insert, reset_beam,
  destructive_increasing_vector,
}
use memt.Decoder.History.{History, entry_of, with_entry, reset_history}
use memt.Decoder.Hypothesis.{
  InternalHypothesis, EndingHypothesis, Setting, blank_history, blank_internal, blank_ending,
  score_of, internal_below, ending_below, equals_up_to_lm, ending_same, root_hypothesis,
  extend_all_but_scorer, merge_hypothesis, finish_merging, set_ending,
}

pub record Config : Type 0 where
  pub internal_beam_size : ℕ
  pub end_beam_size : ℕ
  pub length_normalize : Bool

-- DecoderImpl
pub record DecoderImpl {ℓ m} (D : Type ℓ) (P : Type m) : Type (ℓ ⊔ m) where
  pub current : Beam (InternalHypothesis D P)
  pub next : Beam (InternalHypothesis D P)
  pub ending : Beam (EndingHypothesis D)
  pub scratch_history : History D
  pub length : ℕ

-- Available(), and a change of what is there.
abbrev pub available_in {ℓ} : {A : Type ℓ} → A → Beam A → A
available_in blank b = value blank b.storage.owner b.storage.available

abbrev pub write_available {ℓ} : {A : Type ℓ} → A → Beam A → Beam A
write_available a b = record b {
  storage = record b.storage { owner = set b.storage.owner b.storage.available a };
}

module _ {ℓ m} {D : Type ℓ} {P : Type m} (env : Setting D P) where
  -- The InternalBeam and the EndBeam.
  abbrev pub internal_dupe : Dupe (InternalHypothesis D P)
  internal_dupe = hash_dupe (blank_internal env) (equals_up_to_lm env)

  abbrev pub internal_may_make_it : Beam (InternalHypothesis D P) → InternalHypothesis D P → Bool
  internal_may_make_it =
      may_make_it (blank_internal env) (internal_below env) internal_dupe (merge_hypothesis env)
        env.internal_bottom

  abbrev pub insert_internal :
      InternalHypothesis D P → Beam (InternalHypothesis D P) → Beam (InternalHypothesis D P)
  insert_internal =
      insert (blank_internal env) (internal_below env) internal_dupe (merge_hypothesis env)
        env.internal_bottom

  abbrev pub ending_dupe : Dupe (EndingHypothesis D)
  ending_dupe = hash_dupe (blank_ending env) (ending_same env)

  abbrev pub ending_may_make_it : Beam (EndingHypothesis D) → EndingHypothesis D → Bool
  ending_may_make_it =
      may_make_it (blank_ending env) (ending_below env) ending_dupe
        (one_best_merge (ending_below env)) env.ending_bottom

  abbrev pub insert_ending :
      EndingHypothesis D → Beam (EndingHypothesis D) → Beam (EndingHypothesis D)
  insert_ending =
      insert (blank_ending env) (ending_below env) ending_dupe (one_best_merge (ending_below env))
        env.ending_bottom

  -- FinishMerging of the values in some slots.
  unfoldable pub finish_slots :
      List ℕ → List (InternalHypothesis D P) → List (InternalHypothesis D P)
  unfolding finish_merging
  finish_slots [] owner = owner
  finish_slots (i ∷ rest) owner =
      finish_slots rest (set owner i (finish_merging env (value (blank_internal env) owner i)))

  abbrev pub finish_all : Beam (InternalHypothesis D P) → Beam (InternalHypothesis D P)
  finish_all b = record b {
    storage = record b.storage { owner = finish_slots (slots b.storage) b.storage.owner };
  }

  abbrev pub in_increasing_order : Beam (InternalHypothesis D P) → List (InternalHypothesis D P)
  in_increasing_order =
      destructive_increasing_vector (blank_internal env) (internal_below env) internal_dupe
        (merge_hypothesis env) env.internal_bottom

  module _ (config : Config) (input : Input) where
    -- The scratch history goes into the ending beam, if it may make it.
    unfoldable pub offer_ending :
        InternalHypothesis D P → History D → EndingHypothesis D → DecoderImpl D P → DecoderImpl D P
    unfolding set_ending
    offer_ending start scratch hyp d =
        if ending_may_make_it d.ending (record hyp { history = scratch })
        then record d {
          ending = insert_ending (set_ending env scratch start.history d.length hyp) d.ending;
          scratch_history = blank_history env;
        }
        else record d { ending = write_available hyp d.ending; scratch_history = scratch }

    -- The end of sentence.
    unfoldable pub extend_to_end :
        InternalHypothesis D P → History D → DecoderImpl D P → DecoderImpl D P
    unfolding offer_ending
    extend_to_end start scratch d =
        let entry = entry_of scratch in
        let hyp = available_in (blank_ending env) d.ending in
        let (score, end_features) =
          env.strategy.end_score d.length config.length_normalize entry.score hyp.end_features in
        offer_ending start (with_entry (record entry { score = score }) scratch)
          (record hyp { end_features = end_features }) d

    -- Any other word: the scratch history goes into the next beam, if it may make it and is viable.
    unfoldable pub extend_to_next :
        InternalHypothesis D P
        → History D
        → InternalHypothesis D P
        → DecoderImpl D P
        → DecoderImpl D P
    unfolding extend_all_but_scorer
    extend_to_next start scratch hyp d =
        let (viable, extended) = extend_all_but_scorer env start config.end_beam_size scratch hyp in
        if internal_may_make_it d.next (record hyp { history = scratch })
        then record d {
          next =
              if viable then insert_internal extended d.next else write_available extended d.next;
          scratch_history = blank_history env;
        }
        else record d { next = write_available hyp d.next; scratch_history = scratch }

    -- ExtendHypothesisByLocation
    unfoldable pub extend_by_location :
        InternalHypothesis D P → Location → DecoderImpl D P → DecoderImpl D P
    unfolding extend_to_end extend_to_next
    extend_by_location start location d =
        let text = (get_word input location.engine location.offset).text in
        let hyp = available_in (blank_internal env) d.next in
        let scratch = reset_history d.scratch_history in
        let (payload, score) =
          env.strategy.extend_score start.history location start.payload (score_of env start)
            hyp.payload (entry_of scratch).score in
        let scratch =
          with_entry
            (record {
              score = score;
              word = text.canonical_hash;
              engine = location.engine;
              offset = location.offset;
            })
            scratch in
        let hyp = record hyp { payload = payload } in
        if text.is_end
        then extend_to_end start scratch (record d { next = write_available hyp d.next })
        else extend_to_next start scratch hyp d

    unfoldable pub extend_each :
        InternalHypothesis D P → List Location → DecoderImpl D P → DecoderImpl D P
    unfolding extend_by_location
    extend_each start [] d = d
    extend_each start (l ∷ rest) d = extend_each start rest (extend_by_location start l d)

    -- ExtendHypothesis
    abbrev pub extend_hypothesis : InternalHypothesis D P → DecoderImpl D P → DecoderImpl D P
    extend_hypothesis start d =
        extend_each start (env.strategy.get_extensions start.history start.payload) d

    -- The hypotheses from the last of the list, which is in increasing order, to its first.
    unfoldable pub extend_decreasing :
        List (InternalHypothesis D P) → DecoderImpl D P → DecoderImpl D P
    unfolding extend_each
    extend_decreasing [] d = d
    extend_decreasing (hyp ∷ higher) d = extend_hypothesis hyp (extend_decreasing higher d)

    -- ExtendBeam. The order of the current beam is that of its values when the round begins.
    unfoldable pub extend_beam : DecoderImpl D P → DecoderImpl D P
    unfolding extend_decreasing finish_slots
    extend_beam d =
        let extended = extend_decreasing (in_increasing_order d.current) d in
        record extended {
          current = finish_all extended.next;
          next = reset_beam (blank_internal env) config.internal_beam_size extended.current;
        }

    -- The loop of Run, for at most so many rounds.
    unfoldable pub run_loop : ℕ → DecoderImpl D P → DecoderImpl D P
    unfolding extend_beam
    run_loop zero d = d
    run_loop (suc fuel) d = elim (d.current.storage.size == 0) [
      | true ↦ d
      | false ↦ run_loop fuel (extend_beam (record d { length = add32 d.length 1 }))
    ]

    -- What Run does before its loop.
    unfoldable pub begin_run : DecoderImpl D P → DecoderImpl D P
    unfolding root_hypothesis
    begin_run d =
        let current = reset_beam (blank_internal env) config.internal_beam_size d.current in
        let begin = (get_word input 0 0).text.canonical_hash in
        let root =
          root_hypothesis env begin config.end_beam_size
            (available_in (blank_internal env) current) in
        record d {
          length = 1;
          current = insert_internal root current;
          next = reset_beam (blank_internal env) config.internal_beam_size d.next;
          ending = reset_beam (blank_ending env) config.end_beam_size d.ending;
        }
