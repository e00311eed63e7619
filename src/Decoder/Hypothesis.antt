-- ===== src/Decoder/Hypothesis.antt =====
-- MEMT/Decoder/Hypothesis.hh: the hypotheses in the beams. The strategy, a template parameter of the
-- decoder, is a record of its operations. The cached hash of a hypothesis is that of its payload and
-- location, so it respects EqualsUpToLM.
use memt.Prelude.{ℕ, ◌==◌, ◌&&◌, ◌||◌, not, Bool, true, false, List, [], none, if◌then◌else◌}
use memt.Input.{Location, location}
use memt.Beam.{Beam, reset_beam, one_best_merge}
use memt.Decoder.Score.{Doubles, Score, LogScore, is_below}
use memt.Decoder.History.{
  HistoryEntry, History, no_more, before, entry_of, hash_of, with_entry, with_previous, new_history,
  root_history, make_hash, insert_history, merge_size_one, dump_beam,
}

-- The operations of a strategy with the payload of its hypotheses. What the source has as an output
-- argument is an argument and a result.
pub record Strategy {ℓ m} (D : Type ℓ) (P : Type m) : Type (ℓ ⊔ m) where
  pub begin : P → Score D → P × Score D
  pub get_extensions : History D → P → List Location
  pub extend_score : History D → Location → P → Score D → P → Score D → P × Score D
  pub extend_non_score : Location → P → P → Bool × P
  pub end_score : ℕ → Bool → Score D → List (LogScore D) → Score D × List (LogScore D)
  pub same_payload : P → P → Bool
  pub location_relevant : Bool

pub record InternalHypothesis {ℓ m} (D : Type ℓ) (P : Type m) : Type (ℓ ⊔ m) where
  pub history : History D
  pub payload : P
  pub previous : Beam (History D)

pub record EndingHypothesis {ℓ} (D : Type ℓ) : Type ℓ where
  pub history : History D
  pub end_features : List (LogScore D)
  pub length : ℕ

-- What the decoder is run with: the floating-point numbers, hash_combine, the strategy with a default
-- payload, and the way each heap chooses one of its lowest values.
pub record Setting {ℓ m} (D : Type ℓ) (P : Type m) : Type (ℓ ⊔ m) where
  pub double : Doubles D
  pub combine : ℕ → ℕ → ℕ
  pub strategy : Strategy D P
  pub no_payload : P
  pub history_bottom : List (History D) → List ℕ → ℕ
  pub internal_bottom : List (InternalHypothesis D P) → List ℕ → ℕ
  pub ending_bottom : List (EndingHypothesis D) → List ℕ → ℕ

module _ {ℓ m} {D : Type ℓ} {P : Type m} (env : Setting D P) where
  abbrev pub empty_beam : Beam (History D)
  empty_beam = record {
    storage = record { max_size = 0; size = 0; owner = []; available = 0 };
    dropper = none;
    known = [];
  }

  abbrev pub blank_history : History D
  blank_history = new_history env.double env.combine

  abbrev pub blank_internal : InternalHypothesis D P
  blank_internal = record {
    history = blank_history;
    payload = env.no_payload;
    previous = empty_beam;
  }

  abbrev pub blank_ending : EndingHypothesis D
  blank_ending = record { history = blank_history; end_features = []; length = 0 }

  -- GetScore
  abbrev pub score_of : InternalHypothesis D P → Score D
  score_of hyp = (entry_of hyp.history).score

  -- LessByOverall
  abbrev pub internal_below : InternalHypothesis D P → InternalHypothesis D P → Bool
  internal_below left right = is_below env.double (score_of left) (score_of right)

  abbrev pub ending_below : EndingHypothesis D → EndingHypothesis D → Bool
  ending_below left right =
      is_below env.double (entry_of left.history).score (entry_of right.history).score

  -- EqualsUpToLM
  abbrev pub equals_up_to_lm : InternalHypothesis D P → InternalHypothesis D P → Bool
  equals_up_to_lm left right =
      let l = entry_of left.history in
      let r = entry_of right.history in
      env.strategy.same_payload left.payload right.payload
      && (not env.strategy.location_relevant || (l.engine == r.engine && l.offset == r.offset))

  -- detail::EqualsHashOnly
  abbrev pub ending_same : EndingHypothesis D → EndingHypothesis D → Bool
  ending_same left right = hash_of left.history == hash_of right.history

  -- InitializeRoot, on a hypothesis that has been used before.
  unfoldable pub root_hypothesis : ℕ → ℕ → InternalHypothesis D P → InternalHypothesis D P
  unfolding root_history reset_beam
  root_hypothesis begin_sentence top_n hyp =
      let root = root_history env.double env.combine begin_sentence blank_history in
      let (payload, score) = env.strategy.begin hyp.payload (entry_of root).score in
      record {
        history = with_entry (record (entry_of root) { score = score }) root;
        payload = payload;
        previous = reset_beam blank_history top_n hyp.previous;
      }

  -- ExtendAllButScorer, on a hypothesis that has been used before.
  unfoldable pub extend_all_but_scorer :
      InternalHypothesis D P
      → ℕ
      → History D
      → InternalHypothesis D P
      → Bool × InternalHypothesis D P
  unfolding reset_beam make_hash
  extend_all_but_scorer start top_n history_entry_only hyp =
      let entry = entry_of history_entry_only in
      let (viable, payload) =
        env.strategy.extend_non_score (location entry.engine entry.offset) start.payload
          hyp.payload in
      if viable
      then (
        true,
        record {
          history = history_entry_only;
          payload = payload;
          previous =
              insert_history env.double env.combine env.history_bottom
                (make_hash env.double env.combine start.history)
                (reset_beam blank_history top_n hyp.previous);
        },
      )
      else (false, record hyp { history = history_entry_only; payload = payload })

  -- Merge, by CallMerge
  unfoldable pub merge_hypothesis :
      InternalHypothesis D P → InternalHypothesis D P → InternalHypothesis D P × Bool
  unfolding merge_size_one one_best_merge
  merge_hypothesis to with_hyp =
      let (entry, changed) =
        one_best_merge (λ (l r : HistoryEntry D). is_below env.double l.score r.score)
          (entry_of to.history) (entry_of with_hyp.history) in
      (
        record to {
          previous =
              merge_size_one env.double env.combine env.history_bottom to.previous
                with_hyp.previous;
          history = with_entry entry to.history;
        },
        changed,
      )

  -- FinishMerging
  unfoldable pub finish_merging : InternalHypothesis D P → InternalHypothesis D P
  unfolding dump_beam
  finish_merging hyp = record hyp {
    history = dump_beam env.double env.combine env.history_bottom hyp.previous hyp.history;
  }

  -- EndingHypothesis::Set
  unfoldable pub set_ending : History D → History D → ℕ → EndingHypothesis D → EndingHypothesis D
  unfolding make_hash
  set_ending history previous length hyp = record hyp {
    length = length;
    history = make_hash env.double env.combine (with_previous (before previous no_more) history);
  }
