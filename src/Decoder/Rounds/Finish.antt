-- ===== src/Decoder/Rounds/Finish.antt =====
-- The end of a round: FinishMerging of each hypothesis in the next beam.
use native.Mathlib.Decide.{ℕ_discrete}
use memt.Prelude.{
  ℕ, ◌+◌, ◌<◌, ◌≡◌, ◌∙◌, refl, sym, ap, true, false, List, [], ◌∷◌, arith, if◌then◌else◌, queued,
  distinct, length, set, length-set, get_or-set, ==_self, ◌==◌,
}
use memt.Beam.{Beam, in_use, value, slots}
use memt.Beam.Sound.{IsSound, queued-slots_from, distinct-slots_from}
use memt.Beam.Dupes.{AreApart-alike}
use memt.Decoder.History.{History, node, entry_of, dump_beam, make_hash}
use memt.Decoder.Hypothesis.{
  Setting, InternalHypothesis, blank_internal, equals_up_to_lm, finish_merging,
}
use memt.Decoder.Implementation.{finish_slots, finish_all}
use memt.Decoder.Laws.{IsFair, internal-Laws}
use memt.Beam.Spare.{AreSpare, set-AreSpare}
use memt.Decoder.Rounds.{InternalGood, IsSpare}

module _ {ℓ m} {D : Type ℓ} {P : Type m} (env : Setting D P) where
  abbrev at : List (InternalHypothesis D P) → ℕ → InternalHypothesis D P
  at = value (blank_internal env)

  pub length-finish_slots :
      (q : List ℕ) (owner : List (InternalHypothesis D P))
      → length (finish_slots env q owner) ≡ length owner
  unfolding finish_slots
  length-finish_slots [] owner = refl
  length-finish_slots (i ∷ q) owner =
      length-finish_slots q _ ∙ length-set owner i (finish_merging env (at owner i))

  pub at-finish_slots :
      (q : List ℕ) (owner : List (InternalHypothesis D P)) (i : ℕ)
      → distinct q ≡ true
      → ((j : ℕ) → queued j q ≡ true → j < length owner)
      → at (finish_slots env q owner) i
        ≡ (if queued i q then finish_merging env (at owner i) else at owner i)
  unfolding finish_slots queued distinct
  at-finish_slots [] owner i d within = refl
  at-finish_slots (j ∷ q) owner i d within =
      let f = finish_merging env (at owner j) in
      let put =
        get_or-set owner j i f (blank_internal env) (within j (ground (arith, ==_self j))) in
      let rest =
        at-finish_slots q (set owner j f) i (ground arith)
          (λ k e. omega (arith, length-set owner j f, within k (ground arith))) in
      elim (ℕ_discrete i j) [
        | yes here ↦
            let once : queued i q ≡ false = ground arith in
            let e : (j == i) ≡ true = ground arith in
            let e' : (i == j) ≡ true = ground arith in
            rest ∙ rw (once, put, e, e') (ap (λ k. finish_merging env (at owner k)) (sym here))
        | no there ↦
            let e : (j == i) ≡ false = ground arith in
            let e' : (i == j) ≡ false = ground arith in rest ∙ rw (put, e, e') refl
      ]

  pub finish_slots-AreSpare :
      (q : List ℕ) (owner : List (InternalHypothesis D P))
      → AreSpare (blank_internal env) (IsSpare env) owner
      → AreSpare (blank_internal env) (IsSpare env) (finish_slots env q owner)
  unfolding finish_slots finish_merging
  finish_slots-AreSpare [] owner all = all
  finish_slots-AreSpare (i ∷ q) owner all =
      finish_slots-AreSpare q _
        (set-AreSpare (blank_internal env) (IsSpare env) owner i _ (all i) all)

  entry_of-dump_beam :
      (b : Beam (History D)) (h : History D)
      → entry_of (dump_beam env.double env.combine env.history_bottom b h) ≡ entry_of h
  unfolding dump_beam make_hash
  entry_of-dump_beam b (node _ _ _) = refl

  module _ (fair : IsFair env) where
    equals-finish_merging :
        (hyp : InternalHypothesis D P) → equals_up_to_lm env hyp (finish_merging env hyp) ≡ true
    unfolding finish_merging
    equals-finish_merging hyp =
        rw (entry_of-dump_beam hyp.previous hyp.history)
          ((internal-Laws env fair).equivalence.reflexive hyp)

    module _ {n} (Next Start : InternalHypothesis D P → Type n) (max_size : ℕ)
        (finishes : (hyp : InternalHypothesis D P) → Next hyp → Start (finish_merging env hyp))
        (b : Beam (InternalHypothesis D P)) (g : InternalGood env Next max_size b) where
      at-finish_all :
          (i : ℕ)
          → in_use b.storage i ≡ true
          → at (finish_all env b).storage.owner i ≡ finish_merging env (at b.storage.owner i)
      at-finish_all i u =
          let rounds = b.storage.size + 1 in
          let skip = b.storage.available in
          let v = g.merging.sound in
          let here : queued i (slots b.storage) ≡ true =
            ground (arith, queued-slots_from rounds 0 skip i) in
          at-finish_slots (slots b.storage) b.storage.owner i (distinct-slots_from rounds 0 skip)
            (λ j e. ground (arith, queued-slots_from rounds 0 skip j, v.sized, v.room))
          ∙ rw here refl

      finish_all-IsSound : IsSound (finish_all env b)
      finish_all-IsSound =
          let v = g.merging.sound in
          record {
            sized = length-finish_slots (slots b.storage) b.storage.owner ∙ v.sized;
            room = v.room;
            filling = v.filling;
            full = λ e.
                let f = (v.full e).1 in
                (
                  (v.full e).0,
                  record { spare = f.spare; once = f.once; many = f.many; has = f.has },
                );
          }

      -- The hypotheses are finished.
      pub finish_all-IsGood : InternalGood env Start max_size (finish_all env b)
      finish_all-IsGood =
          let k = g.merging.known in
          record {
            merging = record {
              sound = finish_all-IsSound;
              known = record {
                knows = k.knows;
                once = k.once;
                apart =
                    AreApart-alike (blank_internal env) (equals_up_to_lm env)
                      (internal-Laws env fair).equivalence b.storage.owner _ b.known
                      (λ i q. rw (at-finish_all i (sym (k.knows i) ∙ q)) (equals-finish_merging _))
                      k.apart;
              };
              best = tt;
            };
            all = λ i u. rw (at-finish_all i u) (finishes _ (g.all i u));
            wide = g.wide;
          }
