-- ===== src/Decoder/Laws.antt =====
-- The beams of the decoder obey the laws of a beam that merges duplicates.
use memt.Prelude.{◌≡◌, refl, sym, Bool, false, arith, inl, inr, Bool-cases, subst, if◌then◌else◌}
use memt.Beam.{one_best_merge}
use memt.Beam.Sound.{IsBottom}
use memt.Beam.Begin.{IsOrder}
use memt.Beam.Dupes.{IsEquivalence}
use memt.Beam.Merging.{IsMerge, Laws}
use memt.Beam.Unique.{one_best_merge-IsMerge}
use memt.Decoder.Score.{is_below}
use memt.Decoder.History.{
  HistoryEntry, History, node, entry_of, with_entry, history_below, same_hash,
}
use memt.Decoder.Hypothesis.{
  Setting, InternalHypothesis, blank_history, blank_internal, blank_ending, internal_below,
  ending_below, equals_up_to_lm, ending_same, score_of, merge_hypothesis,
}

-- What the decoder's parameters promise: an order of the numbers, an equality of the payloads, and heaps
-- that yield a lowest value.
pub record IsFair {ℓ m} {D : Type ℓ} {P : Type m} (env : Setting D P) : Type (ℓ ⊔ m) where
  pub order : IsOrder env.double.below
  pub payloads : IsEquivalence env.strategy.same_payload
  pub histories_lowest :
      IsBottom (blank_history env) (history_below env.double env.combine) env.history_bottom
  pub internals_lowest : IsBottom (blank_internal env) (internal_below env) env.internal_bottom
  pub endings_lowest : IsBottom (blank_ending env) (ending_below env) env.ending_bottom

module _ {ℓ m} {D : Type ℓ} {P : Type m} (env : Setting D P) (fair : IsFair env) where
  hashes-IsEquivalence : IsEquivalence (same_hash env.double env.combine)
  hashes-IsEquivalence = record {
    reflexive = λ a. ground arith;
    symmetric = λ a b e. ground arith;
    transitive = λ a b c e f. ground arith;
  }

  abbrev pub history_less : History D → History D → Bool
  history_less = history_below env.double env.combine

  abbrev pub history_same : History D → History D → Bool
  history_same = same_hash env.double env.combine

  pub history-Laws :
      Laws
        (blank_history env)
        history_less
        history_same
        (one_best_merge history_less)
        env.history_bottom
  history-Laws = record {
    equivalence = hashes-IsEquivalence;
    merges =
        one_best_merge-IsMerge history_less history_same hashes-IsEquivalence
          (λ a. fair.order.irreflexive _) (λ a b. fair.order.asymmetric _ _);
    is_bottom = fair.histories_lowest;
    irreflexive = λ a. fair.order.irreflexive _;
    through = λ a b c. fair.order.through _ _ _;
  }

  endings-IsEquivalence : IsEquivalence (ending_same env)
  endings-IsEquivalence = record {
    reflexive = λ a. ground arith;
    symmetric = λ a b e. ground arith;
    transitive = λ a b c e f. ground arith;
  }

  pub ending-Laws :
      Laws
        (blank_ending env)
        (ending_below env)
        (ending_same env)
        (one_best_merge (ending_below env))
        env.ending_bottom
  ending-Laws = record {
    equivalence = endings-IsEquivalence;
    merges =
        one_best_merge-IsMerge (ending_below env) (ending_same env) endings-IsEquivalence
          (λ a. fair.order.irreflexive _) (λ a b. fair.order.asymmetric _ _);
    is_bottom = fair.endings_lowest;
    irreflexive = λ a. fair.order.irreflexive _;
    through = λ a b c. fair.order.through _ _ _;
  }

  internals-IsEquivalence : IsEquivalence (equals_up_to_lm env)
  internals-IsEquivalence = record {
    reflexive = λ a. ground (arith, fair.payloads.reflexive a.payload);
    symmetric = λ a b e. ground (arith, fair.payloads.symmetric a.payload b.payload);
    transitive =
        λ a b c e f. ground (arith, fair.payloads.transitive a.payload b.payload c.payload);
  }

  entry_of-with_entry : (e : HistoryEntry D) (h : History D) → entry_of (with_entry e h) ≡ e
  entry_of-with_entry e (node _ _ _) = refl

  abbrev lower : InternalHypothesis D P → InternalHypothesis D P → Bool
  lower = internal_below env

  entry_of-merge_hypothesis :
      (a b : InternalHypothesis D P)
      → entry_of (merge_hypothesis env a b).0.history
        ≡ (if lower a b then entry_of b.history else entry_of a.history)
  unfolding merge_hypothesis one_best_merge
  entry_of-merge_hypothesis a b = elim (Bool-cases (lower a b)) [
    | inl h ↦ rw h (entry_of-with_entry (entry_of b.history) a.history)
    | inr h ↦ rw h (entry_of-with_entry (entry_of a.history) a.history)
  ]

  payload-merge_hypothesis :
      (a b : InternalHypothesis D P) → (merge_hypothesis env a b).0.payload ≡ a.payload
  unfolding merge_hypothesis
  payload-merge_hypothesis a b = refl

  over :
      (a b c : InternalHypothesis D P)
      → is_below env.double
          (if lower a b then entry_of b.history else entry_of a.history).score
          (score_of env c)
        ≡ false
      → lower (merge_hypothesis env a b).0 c ≡ false
  over a b c =
      subst (λ (e : HistoryEntry D). is_below env.double e.score (score_of env c) ≡ false)
        (sym (entry_of-merge_hypothesis a b))

  merge_hypothesis-IsMerge : IsMerge lower (equals_up_to_lm env) (merge_hypothesis env)
  merge_hypothesis-IsMerge = record {
    alike = λ a b e.
        rw (payload-merge_hypothesis a b, entry_of-merge_hypothesis a b)
          (elim (Bool-cases (lower a b)) [
            | inl h ↦ rw h (ground (arith, fair.payloads.reflexive a.payload))
            | inr h ↦ rw h (ground (arith, fair.payloads.reflexive a.payload))
          ]);
    over_to = λ a b e. over a b a (elim (Bool-cases (lower a b)) [
      | inl h ↦ rw h (fair.order.asymmetric _ _ h)
      | inr h ↦ rw h (fair.order.irreflexive _)
    ]);
    over_with = λ a b e. over a b b (elim (Bool-cases (lower a b)) [
      | inl h ↦ rw h (fair.order.irreflexive _)
      | inr h ↦ rw h h
    ]);
  }

  pub internal-Laws :
      Laws
        (blank_internal env)
        (internal_below env)
        (equals_up_to_lm env)
        (merge_hypothesis env)
        env.internal_bottom
  internal-Laws = record {
    equivalence = internals-IsEquivalence;
    merges = merge_hypothesis-IsMerge;
    is_bottom = fair.internals_lowest;
    irreflexive = λ a. fair.order.irreflexive _;
    through = λ a b c. fair.order.through _ _ _;
  }
