-- ===== src/Decoder/Paths.antt =====
-- The histories that are packed into one have as many words each.
pub mod Steps
use mathlib.Core.Bool.{false≢true}
use memt.Prelude.{
  length-map, ℕ, zero, suc, ◌+◌, ◌-◌, ◌≤◌, ◌<◌, ◌≡◌, ◌∙◌, refl, sym, ap, subst, Bool, true, false,
  List, [], ◌∷◌, arith, inl, inr, Bool-cases, if◌then◌else◌, queued, length, map, ◌==◌, ==_self,
}
use memt.Beam.{
  Beam, one_best_merge, in_use, slots, value, reset_beam, may_make_it,
  destructive_increasing_vector, hash_dupe,
}
use memt.Beam.Sound.{IsAllocated, queued-slots_from}
use memt.Beam.Order.{destructive_increasing_vector-IsIncreasing}
use memt.Beam.Keeps.{
  IsGood, Each, reset_beam-IsGood, insert-IsGood, insert-size, destructive_increasing_vector-Each,
  some_in_use,
}
use memt.Decoder.History.{
  History, Histories, HistoryEntry, node, no_more, before, entry_of, with_entry, with_previous,
  make_hash, from_list, reverse_onto, merge_size_one, dump_beam, first_value, first_slot,
  insert_history, root_history,
}
use memt.Decoder.Hypothesis.{
  Setting, InternalHypothesis, EndingHypothesis, blank_history, root_hypothesis,
  extend_all_but_scorer, merge_hypothesis, finish_merging, set_ending, equals_up_to_lm,
}
use memt.Decoder.Implementation.{Config}
use memt.Decoder.Laws.{IsFair, history-Laws, history_less, history_same}
use memt.Decoder.Depth.{
  is_deep, each_deep, Deep, is_deep-zero, is_deep-with_entry, is_deep-with_previous,
  each_deep-from_list, is_deep-make_hash,
}
use memt.Decoder.Viable.{extend_all_but_scorer-result, result}
use memt.Decoder.Rounds.{IsKept}

module _ {ℓ m} {D : Type ℓ} {P : Type m} (env : Setting D P) (fair : IsFair env) (config : Config)
    (end_room : 0 < config.end_beam_size) where
  -- A beam of histories of so many words, one at least.
  pub record HasDeep (k : ℕ) (b : Beam (History D)) : Type ℓ where
    pub good :
        IsGood
          (blank_history env)
          (history_less env fair)
          (history_same env fair)
          (one_best_merge (history_less env fair))
          env.history_bottom
          (Deep k)
          config.end_beam_size
          b
    pub some_left : 0 < b.storage.size

  pub Deep-positive : (k : ℕ) (h : History D) → Deep k h → 0 < k
  Deep-positive zero h d = absurd (is_deep-zero h d)
  Deep-positive (suc k) h d = omega arith

  one_best-Deep :
      (k : ℕ) (a b : History D)
      → history_same env fair a b ≡ true
      → Deep k a
      → Deep k b
      → Deep k (one_best_merge (history_less env fair) a b).0
  unfolding one_best_merge
  one_best-Deep k a b e p q = elim (Bool-cases (history_less env fair a b)) [
    | inl h ↦ rw h q
    | inr h ↦ rw h p
  ]

  pub insert_history-HasDeep :
      (k : ℕ) (h : History D) (b : Beam (History D))
      → Deep k h
      → IsGood
          (blank_history env)
          (history_less env fair)
          (history_same env fair)
          (one_best_merge (history_less env fair))
          env.history_bottom
          (Deep k)
          config.end_beam_size
          b
      → HasDeep k (insert_history env.double env.combine env.history_bottom h b)
  insert_history-HasDeep k h b d g = record {
    good = insert-IsGood _ _ _ _ _ (Deep k) _ (history-Laws env fair) (one_best-Deep k) h b d g;
    some_left =
        insert-size _ _ _ _ _ (Deep k) _ (history-Laws env fair) (one_best-Deep k) h b g end_room;
  }

  queued-first_slot :
      (i : ℕ) (q : List ℕ)
      → queued i q ≡ true
      → queued (first_slot env.double env.combine env.history_bottom q) q ≡ true
  unfolding queued
  queued-first_slot i [] e = absurd (false≢true e)
  queued-first_slot i (j ∷ q) e = ground (arith, ==_self j)

  first_value-Deep :
      (k : ℕ) (b : Beam (History D))
      → HasDeep k b
      → Deep k (first_value env.double env.combine env.history_bottom b)
  first_value-Deep k b v =
      let rounds = b.storage.size + 1 in
      let skip = b.storage.available in
      let (i, u) = some_in_use b v.some_left in
      let j = first_slot env.double env.combine env.history_bottom (slots b.storage) in
      let at : queued j (slots b.storage) ≡ true =
        queued-first_slot i (slots b.storage) (ground (arith, queued-slots_from rounds 0 skip i)) in
      v.good.all j (ground (arith, queued-slots_from rounds 0 skip j))

  pub merge_size_one-HasDeep :
      (k : ℕ) (a b : Beam (History D))
      → HasDeep k a
      → HasDeep k b
      → HasDeep k (merge_size_one env.double env.combine env.history_bottom a b)
  unfolding merge_size_one
  merge_size_one-HasDeep k a b v w =
      let h = first_value env.double env.combine env.history_bottom b in
      elim (Bool-cases (
        may_make_it (blank_history env) (history_less env fair)
          (hash_dupe (blank_history env) (history_same env fair))
          (one_best_merge (history_less env fair)) env.history_bottom a h)) [
            | inl makes_it ↦
                rw makes_it (insert_history-HasDeep k h a (first_value-Deep k b w) v.good)
            | inr too_low ↦ rw too_low v
          ]

  abbrev reversed : List (History D) → List (History D) → List (History D)
  reversed = reverse_onto env.double env.combine env.history_bottom

  Each-reverse_onto :
      (k : ℕ) (hs done : List (History D))
      → Each (Deep k) hs
      → Each (Deep k) done
      → Each (Deep k) (reversed hs done) × (length (reversed hs done) ≡ length hs + length done)
  unfolding reverse_onto
  Each-reverse_onto k [] done e f = (f, omega arith)
  Each-reverse_onto k (h ∷ hs) done (d, e) f =
      let (all, long) = Each-reverse_onto k hs (h ∷ done) e (d, f) in (all, omega arith)

  pub finished-Deep :
      (k : ℕ) (hs : List (History D)) (h : History D)
      → 0 < length hs
      → Each (Deep k) hs
      → 0 < k
      → Deep (k + 1) (make_hash env.double env.combine (with_previous (from_list hs) h))
  unfolding from_list
  finished-Deep k [] h some_left e pos = absurd (omega arith)
  finished-Deep zero (p ∷ hs) h some_left e pos = absurd (omega arith)
  finished-Deep (suc k) (p ∷ hs) h some_left e pos =
      let longer : suc (suc k) ≡ suc k + 1 = omega arith in
      subst
        (λ n. Deep n (make_hash env.double env.combine (with_previous (before p (from_list hs)) h)))
        longer
        (is_deep-make_hash env.double env.combine (with_previous (before p (from_list hs)) h)
            (suc (suc k))
          ∙ is_deep-with_previous h p (from_list hs) k (each_deep-from_list (p ∷ hs) (suc k) e))

  pub dump_beam-Deep :
      (k : ℕ) (b : Beam (History D)) (h : History D)
      → HasDeep k b
      → 0 < k
      → Deep (k + 1) (dump_beam env.double env.combine env.history_bottom b h)
  unfolding dump_beam
  dump_beam-Deep k b h v pos =
      let (q, e, long, _, _) =
        destructive_increasing_vector-IsIncreasing (blank_history env) (history_less env fair)
          (hash_dupe (blank_history env) (history_same env fair))
          (one_best_merge (history_less env fair)) env.history_bottom fair.histories_lowest b
          v.good.merging.sound in
      let each =
        destructive_increasing_vector-Each _ _ _ _ _ (Deep k) _ (history-Laws env fair) b v.good in
      let (all, size) = Each-reverse_onto k _ [] each tt in
      finished-Deep k _ h
        (omega (
          arith,
          size,
          ap length e,
          length-map (value (blank_history env) b.storage.owner) q,
          long,
        ))
        all pos
