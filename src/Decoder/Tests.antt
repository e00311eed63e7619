-- ===== src/Decoder/Tests.antt =====
-- A decoder whose strategy follows one sentence to its end.
use mathlib.Core.Bool.{false≢true}
use memt.Prelude.{
  List, map, queued, ℕ, ◌+◌, ◌-◌, ◌*◌, ◌≡◌, refl, Bool, true, false, none, [], ◌∷◌, ltb, ◌==◌,
  arith, if◌then◌else◌,
}
use memt.Input.{Input, Word, location, blank_text, blank_word}
use memt.Beam.{
  Beam, set_begin, insert, insert_available, hash_dupe, reset_storage, use_available,
  destructive_increasing_vector, build_dropper, may_make_it,
}
use memt.Decoder.Score.{Doubles}
use memt.Decoder.Score.{unset_score}
use memt.Decoder.History.{History, node, before, no_more, entry_of, new_history, unset_entry}
use memt.Decoder.Hypothesis.{Strategy, Setting, InternalHypothesis, EndingHypothesis}
use memt.Decoder.Implementation.{Config, DecoderImpl, begin_run, run_loop}
use memt.Decoder.Depth.{is_deep}
use memt.Decoder.Complete.{
  PartialHistory, Completion, CompletedHypothesis, count_histories, complete_one, completed_loop,
  follow,
}
use memt.Decoder.Complete.Loop.{IsReady, IsCompleted, complete_one-IsCompleted}

abbrev pub numbers : Doubles ℕ
numbers = record {
  minus_infinity = 0;
  below = ltb;
  same = λ a b. a == b;
  plus = λ a b. a + b;
  minus = λ a b. a - b;
  times = λ a b. a * b;
  inverse = λ n. 1;
}

abbrev pub mix : ℕ → ℕ → ℕ
mix a b = a * 31 + b

abbrev step : ℕ → ℕ → Bool × ℕ
step from to = if from == 0 then (false, to) else (true, from - 1)

-- The payload is the number of words that are left.
abbrev follow_one : Strategy ℕ ℕ
follow_one = record {
  begin = λ p s. (3, s);
  get_extensions = λ h p. location 0 (4 - p) ∷ [];
  extend_score = λ h l p s to to_score.
      (to, record { overall = record { log_value = s.overall.log_value + 1 }; features = [] });
  extend_non_score = λ l from to. step from to;
  end_score = λ length normalize s features. (s, []);
  same_payload = λ a b. a == b;
  location_relevant = false;
}

abbrev pub blank_h : History ℕ
blank_h = new_history numbers mix

abbrev pub beam_of {ℓ} : (A : Type ℓ) → Beam A
beam_of A = record {
  storage = record { max_size = 0; size = 0; owner = []; available = 0 };
  dropper = none;
  known = [];
}

abbrev pub overall : History ℕ → ℕ
overall h = (entry_of h).score.overall.log_value

abbrev sentence : Setting ℕ ℕ
sentence = record {
  double = numbers;
  combine = mix;
  strategy = follow_one;
  no_payload = 0;
  history_bottom = set_begin blank_h (λ (l r : History ℕ). ltb (overall l) (overall r));
  internal_bottom =
      set_begin (record { history = blank_h; payload = 0; previous = beam_of (History ℕ) })
        (λ (l r : InternalHypothesis ℕ ℕ). ltb (overall l.history) (overall r.history));
  ending_bottom =
      set_begin (record { history = blank_h; end_features = []; length = 0 })
        (λ (l r : EndingHypothesis ℕ). ltb (overall l.history) (overall r.history));
}

abbrev pub small : Config
small = record { internal_beam_size = 2; end_beam_size = 2; length_normalize = false }

abbrev pub word_of : ℕ → Bool → Word
word_of hash is_end = record blank_word {
  text = record blank_text { canonical_hash = hash; is_end = is_end };
}

abbrev one_sentence : Input
one_sentence = record {
  engines =
      record {
        number = 0;
        words = word_of 1 false ∷ word_of 5 false ∷ word_of 6 false ∷ word_of 2 true ∷ [];
      }
      ∷ [];
}

abbrev new_decoder : DecoderImpl ℕ ℕ
new_decoder = record {
  current = beam_of (InternalHypothesis ℕ ℕ);
  next = beam_of (InternalHypothesis ℕ ℕ);
  ending = beam_of (EndingHypothesis ℕ);
  scratch_history = blank_h;
  length = 0;
}

abbrev after_run : DecoderImpl ℕ ℕ
after_run =
    run_loop sentence small one_sentence 4 (begin_run sentence small one_sentence new_decoder)

abbrev pub first_of_queue : List (PartialHistory ℕ) → ℕ
first_of_queue queue = 0

-- A history of two words, and one of three that has it packed twice.
abbrev two_words : History ℕ
two_words = node (unset_entry numbers mix) (before blank_h no_more) 0

abbrev packed_twice : PartialHistory ℕ
packed_twice = record {
  packed = before two_words (before two_words no_more);
  path = record { address = 0; nodes = blank_h ∷ [] };
  node_length = 2;
  path_length = 1;
  multiplier = unset_score numbers;
  score = unset_score numbers;
  end_features = [];
}

packed_twice-IsReady : IsReady packed_twice
unfolding count_histories is_deep
packed_twice-IsReady = record {
  words_before = omega arith;
  packs = omega arith;
  deep = refl;
  long = refl;
}

abbrev one_entry : Completion ℕ
one_entry = record { delayed = []; sentences = []; finished = []; next_address = 1 }

complete_one-IsCompleted_example :
    IsCompleted numbers mix false packed_twice one_entry
      (complete_one numbers mix false packed_twice [] one_entry)
unfolding queued
complete_one-IsCompleted_example =
    complete_one-IsCompleted numbers mix false packed_twice [] one_entry packed_twice-IsReady tt
      (λ a q. absurd (false≢true q))

-- The same sentence is finished twice, once for each way to it.
twice :
    map
      (λ (h : CompletedHypothesis ℕ). h.words)
      (completed_loop numbers mix false first_of_queue 2 2
        (record one_entry { delayed = packed_twice ∷ [] })).finished
    ≡ (location 0 0 ∷ location 0 0 ∷ location 0 0 ∷ [])
      ∷ (location 0 0 ∷ location 0 0 ∷ location 0 0 ∷ [])
      ∷ []
unfolding completed_loop complete_one follow count_histories queued
twice = refl

-- One ending, of four words.
sentence_found : (after_run.ending.storage.size ≡ 1) × (after_run.length ≡ 4)
unfolding run_loop begin_run insert insert_available hash_dupe reset_storage use_available
    destructive_increasing_vector set_begin build_dropper may_make_it
sentence_found = (refl, refl)
