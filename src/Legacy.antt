-- ===== src/Legacy.antt =====
-- MEMT/Strategy/Legacy: the strategy that lets a hypothesis take the next word of any engine, within
-- the horizon and the phrases. Sentence.hh and Hypothesis.hh. What the scorer keeps is a type of its
-- own.
pub mod Extensions
mod Tests
use memt.Prelude.{
  ℕ, zero, suc, ◌+◌, ◌-◌, ◌≡◌, Bool, true, false, not, ◌&&◌, List, [], ◌∷◌, Option, none, some,
  add32, ltb, ◌==◌, if◌then◌else◌, any_bit,
}
use memt.Input.{
  Input, Location, location, ask, AlignmentInfo, WordAlignments, is_connection, get_engine,
  get_word, num_engines, engine_length,
}
use memt.Input.Closure.{insert_location}
use memt.Phrase.{System, phrase_at}
use memt.Phrase.Lock.{Lock, unlocked, in_phrase, advance, eq_lock}
use memt.Horizon.Hypothesis.{
  Hypothesis, initialize_all, frontier_of, is_used_in, consume_word, eq_hypothesis, system_at,
}

pub record LegacyConfig : Type 0 where
  pub extend_aligned : Bool
  pub continue_recent : Bool

pub record LegacyHypothesis {ℓ} (S : Type ℓ) : Type ℓ where
  pub horizon : Hypothesis
  pub phrase : Lock
  pub scorer : S

-- operator==
unfoldable pub eq_legacy {ℓ} :
    {S : Type ℓ} → (S → S → Bool) → LegacyHypothesis S → LegacyHypothesis S → Bool
eq_legacy eq_scorer left right =
    eq_hypothesis left.horizon right.horizon
    && eq_lock left.phrase right.phrase
    && eq_scorer left.scorer right.scorer

-- Begin
unfoldable pub begin {ℓ} : {S : Type ℓ} → S → Input → LegacyHypothesis S
begin scorer text = record {
  horizon = initialize_all (num_engines text);
  phrase = unlocked;
  scorer = scorer;
}

-- ~(AL_BOUNDARY | AL_SELF | AL_EXACT)
abbrev pub inexact : ℕ
inexact = 4294967295 - 642

abbrev insert_if : Bool → Location → List Location → List Location
insert_if true l locations = insert_location l locations
insert_if false l locations = locations

-- for (other = ..; other < input_->engines.size(); ++other), with `rounds` of them left
unfoldable pub insert_aligned : ℕ → ℕ → WordAlignments → List Location → List Location
insert_aligned zero other alignments locations = locations
insert_aligned (suc rounds) other alignments locations =
    let info = ask alignments other in
    insert_aligned rounds (suc other) alignments
      (insert_if (any_bit info.type inexact) (location other info.offset) locations)

-- The word at the frontier of an engine that has words left, and what it is aligned to.
unfoldable pub extend_frontier :
    LegacyConfig → Input → Hypothesis → ℕ → List Location → List Location
extend_frontier config text horizon engine locations =
    let frontier = frontier_of horizon engine in
    let next = insert_location (location engine frontier) locations in
    if ltb frontier (engine_length (get_engine text engine))
    then (if config.extend_aligned
        then insert_aligned (num_engines text) 0 (get_word text engine frontier).alignments next
        else next)
    else locations

-- May the word behind one that the previous word was aligned to be taken?
unfoldable pub is_recent : LegacyConfig → Input → Hypothesis → AlignmentInfo → ℕ → Bool
is_recent config text horizon info engine =
    let next_offset = add32 info.offset 1 in
    config.continue_recent
    && is_connection info
    && not (next_offset == frontier_of horizon engine)
    && ltb next_offset (engine_length (get_engine text engine))
    && not (is_used_in horizon engine next_offset)

unfoldable pub extend_recent :
    LegacyConfig → Input → Hypothesis → WordAlignments → ℕ → List Location → List Location
extend_recent config text horizon pre_align engine locations =
    let info = ask pre_align engine in
    insert_if (is_recent config text horizon info engine) (location engine (add32 info.offset 1))
      locations

-- for (engine = ..; engine < input_->engines.size(); ++engine), with `rounds` of them left
unfoldable pub extend_engines :
    ℕ → LegacyConfig → Input → Hypothesis → WordAlignments → ℕ → List Location → List Location
extend_engines zero config text horizon pre_align engine locations = locations
extend_engines (suc rounds) config text horizon pre_align engine locations =
    extend_engines rounds config text horizon pre_align (suc engine) (
      extend_recent config text horizon pre_align engine
        (extend_frontier config text horizon engine locations))

-- GetExtensions: the locations that are given to the callback, in their order. `previous` is the
-- location of the word that was appended before.
unfoldable pub get_extensions {ℓ} :
    {S : Type ℓ} → LegacyConfig → Input → Location → LegacyHypothesis S → List Location
unfolding extend_engines extend_recent extend_frontier insert_aligned
get_extensions config text previous h =
    if in_phrase h.phrase
    then location h.phrase.engine (frontier_of h.horizon h.phrase.engine) ∷ []
    else extend_engines (num_engines text) config text h.horizon
        (get_word text previous.engine previous.offset).alignments 0 []

-- ExtendNonScore, with the constraints that the configuration chooses; `none` where it returns false.
unfoldable pub extend_non_score {ℓ} :
    {S : Type ℓ}
    → (Hypothesis → Hypothesis)
    → Input
    → List System
    → Location
    → LegacyHypothesis S
    → Option (LegacyHypothesis S)
extend_non_score enforce text phrase to from_hypothesis =
    let (horizon, left) = consume_word enforce text phrase to from_hypothesis.horizon in
    if left
    then some (record from_hypothesis {
      horizon = horizon;
      phrase =
          advance (phrase_at (system_at phrase to.engine) to.offset) horizon to.engine to.offset
            from_hypothesis.phrase;
    })
    else none
