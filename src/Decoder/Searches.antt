-- ===== src/Decoder/Searches.antt =====
-- Searches with the graph strategy over two searchs of one word, all of whose words are aligned.
use mathlib.Core.Bool.{false≢true}
use memt.Prelude.{
  ap, subst, get_or, remove, length, word_mod, &&-true, ◌≤◌, List, ℕ, zero, suc, ◌+◌, ◌≡◌, ◌<◌,
  refl, Bool, true, false, [], ◌∷◌, ltb, ◌==◌, inl, arith,
}
use memt.Input.{Input, WordAlignments, blank_word, Word, blank_text, is_connection, ask, get_word}
use memt.Beam.{
  full_less, one_best_merge, value, set_begin, insert, insert_available, hash_dupe, reset_storage,
  use_available, destructive_increasing_vector, build_dropper, may_make_it,
}
use memt.Beam.Begin.{IsOrder, set_begin-IsBottom}
use memt.Beam.Dupes.{IsEquivalence}
use memt.Decoder.History.{History}
use memt.Decoder.Hypothesis.{Setting, InternalHypothesis, EndingHypothesis, blank_ending}
use memt.Decoder.Implementation.{DecoderImpl, begin_run, run_loop}
use memt.Decoder.Laws.{IsFair}
use memt.Decoder.Depth.{Deep}
use memt.Decoder.Rounds.Loop.{IsUsable}
use memt.Decoder.Whole.{complete-ends}
use memt.Decoder.Complete.{complete}
use memt.Decoder.Complete.Ends.{HasEnded}
use memt.Decoder.Ends.{run-Deep, IsShrinking, run-ends}
use memt.Decoder.Tests.{numbers, mix, blank_h, beam_of, overall, small, first_of_queue}
use memt.Graph.{
  bit_size, begin_bits, extend_bits, graph_extensions, cover_aligned, continued, bigrams, bit,
  starts_from,
}
use memt.Graph.Bits.{IsPlace}
use memt.Graph.Clear.{count_clear, IsSelfAligned}
use memt.Graph.Strategy.{
  graph_search-ends, GraphHypothesis, GraphScorer, graph_strategy, graph_strategy-IsShrinking,
  eq_bits, eq_graph,
}

-- A scorer that counts the words.
abbrev counting : GraphScorer ℕ ℕ
counting = record {
  begin = λ state score. (0, score);
  extend = λ h l from score to to_score.
      (from + 1, record { overall = record { log_value = from + 1 }; features = [] });
  end = λ words normalize score. score;
  same = λ a b. a == b;
}

abbrev word_at : ℕ → ℕ → Bool → Word
word_at hash o is_end = record {
  text = record blank_text { canonical_hash = hash; is_end = is_end };
  alignments = record { offset = o; type = 130 } ∷ record { offset = o; type = 130 } ∷ [];
}

abbrev words : List Word
words = word_at 1 0 false ∷ word_at 5 1 false ∷ word_at 2 2 true ∷ []

abbrev pair : Input
pair = record {
  engines = record { number = 0; words = words } ∷ record { number = 1; words = words } ∷ [];
}

abbrev alignments_of : ℕ → WordAlignments
alignments_of o = (get_or words o blank_word).alignments

words_inside :
    (o k : ℕ)
    → is_connection (ask (alignments_of o) k) ≡ true
    → IsPlace pair k (ask (alignments_of o) k).offset
words_inside zero zero c = omega arith
words_inside zero (suc zero) c = omega arith
words_inside zero (suc (suc k)) c = absurd (false≢true c)
words_inside (suc zero) zero c = omega arith
words_inside (suc zero) (suc zero) c = omega arith
words_inside (suc zero) (suc (suc k)) c = absurd (false≢true c)
words_inside (suc (suc zero)) zero c = omega arith
words_inside (suc (suc zero)) (suc zero) c = omega arith
words_inside (suc (suc zero)) (suc (suc k)) c = absurd (false≢true c)
words_inside (suc (suc (suc o))) k c = absurd (false≢true c)

words_itself :
    (e o : ℕ)
    → e < 2
    → o < 3
    → (is_connection (ask (alignments_of o) e) ≡ true) × ((ask (alignments_of o) e).offset ≡ o)
words_itself zero zero h i = (refl, refl)
words_itself zero (suc zero) h i = (refl, refl)
words_itself zero (suc (suc zero)) h i = (refl, refl)
words_itself zero (suc (suc (suc o))) h i = absurd (omega (arith, i))
words_itself (suc zero) zero h i = (refl, refl)
words_itself (suc zero) (suc zero) h i = (refl, refl)
words_itself (suc zero) (suc (suc zero)) h i = (refl, refl)
words_itself (suc zero) (suc (suc (suc o))) h i = absurd (omega (arith, i))
words_itself (suc (suc e)) o h i = absurd (omega (arith, h))

pair_inside :
    (e o k : ℕ)
    → is_connection (ask (get_word pair e o).alignments k) ≡ true
    → IsPlace pair k (ask (get_word pair e o).alignments k).offset
pair_inside zero o k c = words_inside o k c
pair_inside (suc zero) o k c = words_inside o k c
pair_inside (suc (suc e)) o k c = absurd (false≢true c)

pair_itself :
    (e o : ℕ)
    → IsPlace pair e o
    → (is_connection (ask (get_word pair e o).alignments e) ≡ true)
      × ((ask (get_word pair e o).alignments e).offset ≡ o)
pair_itself zero o p = words_itself 0 o p.0 p.1
pair_itself (suc zero) o p = words_itself 1 o p.0 p.1
pair_itself (suc (suc e)) o p = absurd (omega (arith, p.0))

pair-IsSelfAligned : IsSelfAligned pair
pair-IsSelfAligned = record { inside = pair_inside; itself = pair_itself }

ltb-IsOrder : IsOrder ltb
ltb-IsOrder = record {
  irreflexive = λ a. ground arith;
  asymmetric = λ a b h. ground arith;
  through = λ a b c h k. ground arith;
}

by_number-IsOrder {ℓ} : {A : Type ℓ} (f : A → ℕ) → IsOrder (λ (l r : A). ltb (f l) (f r))
by_number-IsOrder f = record {
  irreflexive = λ a. ltb-IsOrder.irreflexive (f a);
  asymmetric = λ a b. ltb-IsOrder.asymmetric (f a) (f b);
  through = λ a b c. ltb-IsOrder.through (f a) (f b) (f c);
}

abbrev no_hypothesis : GraphHypothesis ℕ
no_hypothesis = record { coverage = []; scorer = 0 }

abbrev Hyp : Type 0
Hyp = InternalHypothesis ℕ (GraphHypothesis ℕ)

abbrev search : Setting ℕ (GraphHypothesis ℕ)
search = record {
  double = numbers;
  combine = mix;
  strategy = graph_strategy counting pair;
  no_payload = no_hypothesis;
  history_bottom = set_begin blank_h (λ (l r : History ℕ). ltb (overall l) (overall r));
  internal_bottom =
      set_begin
        (record { history = blank_h; payload = no_hypothesis; previous = beam_of (History ℕ) })
        (λ (l r : Hyp). ltb (overall l.history) (overall r.history));
  ending_bottom =
      set_begin (record { history = blank_h; end_features = []; length = 0 })
        (λ (l r : EndingHypothesis ℕ). ltb (overall l.history) (overall r.history));
}

eq_bits-same : (a : List Bool) → eq_bits a a ≡ true
unfolding eq_bits
eq_bits-same [] = refl
eq_bits-same (true ∷ a) = eq_bits-same a
eq_bits-same (false ∷ a) = eq_bits-same a

eq_bits-equal : (a b : List Bool) → eq_bits a b ≡ true → a ≡ b
unfolding eq_bits
eq_bits-equal [] [] h = refl
eq_bits-equal [] (y ∷ b) h = absurd (false≢true h)
eq_bits-equal (x ∷ a) [] h = absurd (false≢true h)
eq_bits-equal (true ∷ a) (true ∷ b) h = ap (λ l. true ∷ l) (eq_bits-equal a b h)
eq_bits-equal (true ∷ a) (false ∷ b) h = absurd (false≢true h)
eq_bits-equal (false ∷ a) (true ∷ b) h = absurd (false≢true h)
eq_bits-equal (false ∷ a) (false ∷ b) h = ap (λ l. false ∷ l) (eq_bits-equal a b h)

eq_graph-IsEquivalence : IsEquivalence (eq_graph counting.same)
unfolding eq_graph
eq_graph-IsEquivalence = record {
  reflexive = λ a. ground (arith, eq_bits-same a.coverage);
  symmetric = λ a b e.
      let (bits, scorers) =
        &&-true {a = eq_bits a.coverage b.coverage} {b = counting.same a.scorer b.scorer} e in
      ground (
        arith,
        scorers,
        subst (λ x. eq_bits x a.coverage ≡ true) (eq_bits-equal a.coverage b.coverage bits)
            (eq_bits-same a.coverage),
      );
  transitive = λ a b c e f.
      let (bits, scorers) =
        &&-true {a = eq_bits a.coverage b.coverage} {b = counting.same a.scorer b.scorer} e in
      let (more_bits, more_scorers) =
        &&-true {a = eq_bits b.coverage c.coverage} {b = counting.same b.scorer c.scorer} f in
      ground (
        arith,
        scorers,
        more_scorers,
        subst (λ x. eq_bits a.coverage x ≡ true) (eq_bits-equal b.coverage c.coverage more_bits)
            bits,
      );
}

search-IsFair : IsFair search
search-IsFair = record {
  order = ltb-IsOrder;
  payloads = eq_graph-IsEquivalence;
  histories_lowest = set_begin-IsBottom _ _ (by_number-IsOrder (λ (h : History ℕ). overall h));
  internals_lowest = set_begin-IsBottom _ _ (by_number-IsOrder (λ (h : Hyp). overall h.history));
  endings_lowest =
      set_begin-IsBottom _ _ (by_number-IsOrder (λ (h : EndingHypothesis ℕ). overall h.history));
}

-- Bits for all words, and how many of them are clear.
abbrev Fit : GraphHypothesis ℕ → Type 0
Fit p = length p.coverage ≡ bit_size 0 pair.engines

abbrev left : GraphHypothesis ℕ → ℕ
left p = count_clear p.coverage

abbrev all_bits : ℕ
all_bits = bit_size 0 pair.engines

few_bits : all_bits + 2 < word_mod
unfolding bit_size
few_bits = omega arith

search-IsShrinking : IsShrinking search Fit left all_bits
search-IsShrinking = graph_strategy-IsShrinking search counting pair pair-IsSelfAligned

abbrev new_decoder : DecoderImpl ℕ (GraphHypothesis ℕ)
new_decoder = record {
  current = beam_of Hyp;
  next = beam_of Hyp;
  ending = beam_of (EndingHypothesis ℕ);
  scratch_history = blank_h;
  length = 0;
}

abbrev after_run : DecoderImpl ℕ (GraphHypothesis ℕ)
after_run = run_loop search small pair 4 (begin_run search small pair new_decoder)

new_decoder-IsUsable : IsUsable search new_decoder
new_decoder-IsUsable = record {
  current_allocated = inl refl;
  next_allocated = inl refl;
  ending_allocated = inl refl;
  spare_current = λ i. inl refl;
  spare_next = λ i. inl refl;
}

run-ends_example :
    (run_loop search small pair
      (all_bits + 1)
      (begin_run search small pair new_decoder)).current.storage.size
    ≡ 0
run-ends_example =
    run-ends search search-IsFair Fit left all_bits search-IsShrinking few_bits small (omega arith)
      (omega arith) pair new_decoder new_decoder-IsUsable

abbrev found : EndingHypothesis ℕ
found = value (blank_ending search) after_run.ending.storage.owner 0

run-Deep_example :
    Deep found.length found.history × (1 < found.length) × (found.length ≤ all_bits + 2)
unfolding eq_graph eq_bits graph_extensions bigrams continued begin_bits bit starts_from bit_size
    extend_bits cover_aligned run_loop begin_run insert insert_available hash_dupe reset_storage
    use_available destructive_increasing_vector set_begin build_dropper may_make_it full_less remove
    one_best_merge
run-Deep_example =
    run-Deep search search-IsFair Fit left all_bits search-IsShrinking few_bits small (omega arith)
      (omega arith) pair new_decoder new_decoder-IsUsable 4 0 refl

complete-ends_example :
    HasEnded numbers mix false first_of_queue 2
      (complete numbers mix false first_of_queue (blank_ending search) 2 after_run.ending)
complete-ends_example =
    complete-ends search search-IsFair Fit left all_bits search-IsShrinking few_bits small
      (omega arith) (omega arith) first_of_queue pair new_decoder new_decoder-IsUsable 4

graph_search-ends_example :
    (run_loop search small pair
      (all_bits + 1)
      (begin_run search small pair new_decoder)).current.storage.size
    ≡ 0
graph_search-ends_example =
    graph_search-ends search counting pair small new_decoder pair-IsSelfAligned search-IsFair
      few_bits (omega arith) (omega arith) new_decoder-IsUsable
