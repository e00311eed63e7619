-- ===== src/Beam/Merging/Join.antt =====
-- The insertion of a value that is merged into an equal one.
use native.Mathlib.Decide.{ℕ_discrete, dec_lt}
use memt.Prelude.{
  ℕ, ◌<◌, ◌≡◌, ◌∙◌, refl, sym, ap, subst, Bool, true, false, List, [], ◌∷◌, ◌==◌, if◌then◌else◌,
  length, queued, distinct, arith, inl, inr, length-set, get_or-set, length-remove, distinct-remove,
  queued_again, ==_self,
}
use memt.Beam.{Beam, hash_dupe, in_use, value, merge_dupe, dropped}
use memt.Beam.Sound.{IsSound}
use memt.Beam.Written.{written, written-IsSound, at_new, at_old}
use memt.Beam.Best.{AreBest}
use memt.Beam.Dupes.{IsKnown, AreApart-alike}
use memt.Beam.Merging.{Laws, Covers, at_known}

module _ {ℓ} {A : Type ℓ} (blank : A) (less equals : A → A → Bool) (merge : A → A → A × Bool)
    (bottom : List A → List ℕ → ℕ) (laws : Laws blank less equals merge bottom) (a : A) (b : Beam A)
    (v : IsSound b) (k : IsKnown blank equals b) where
  -- The value is merged into one that is known.
  module _ (i : ℕ) (q : queued i b.known ≡ true)
      (same : equals
          (value blank (written a b).storage.owner i)
          (value blank (written a b).storage.owner b.storage.available)
        ≡ true) where
    abbrev pub merged : A
    merged =
        (merge (value blank (written a b).storage.owner i)
          (value blank (written a b).storage.owner b.storage.available)).0

    abbrev pub joined : Beam A
    joined = merge_dupe blank less (hash_dupe blank equals) merge bottom i (written a b)

    used : in_use b.storage i ≡ true
    used = sym (k.knows i) ∙ q

    with_new : equals (value blank b.storage.owner i) a ≡ true
    with_new =
        sym
          (rw ((at_known blank less equals merge bottom laws a b v k) i q, at_new blank a b v) refl)
        ∙ same

    merged-alike : equals (value blank b.storage.owner i) merged ≡ true
    merged-alike =
        subst (λ x. equals x merged ≡ true)
          ((at_known blank less equals merge bottom laws a b v k) i q) (laws.merges.alike _ _ same)

    merged-over : less merged (value blank b.storage.owner i) ≡ false
    merged-over =
        subst (λ x. less merged x ≡ false)
          ((at_known blank less equals merge bottom laws a b v k) i q)
          (laws.merges.over_to _ _ same)

    merged-new : less merged a ≡ false
    merged-new =
        subst (λ x. less merged x ≡ false) (at_new blank a b v) (laws.merges.over_with _ _ same)

    small : i < length (written a b).storage.owner
    small = ground (arith, (written-IsSound blank a b v).sized, used, v.room)

    pub at_joined :
        (j : ℕ)
        → in_use b.storage j ≡ true
        → value blank joined.storage.owner j
          ≡ (if i == j then merged else value blank b.storage.owner j)
    unfolding merge_dupe
    at_joined j u =
        get_or-set (written a b).storage.owner i j merged blank small
        ∙ ap (λ x. if i == j then merged else x) (at_old blank a b v j u)

    -- What was there has an equal value, not below it, in its place.
    joined-Covers :
        (j : ℕ)
        → in_use b.storage j ≡ true
        → Covers blank less equals
            (value blank joined.storage.owner j)
            (value blank b.storage.owner j)
    joined-Covers j u = rw (at_joined j u) (elim (ℕ_discrete i j) [
      | yes e ↦
          subst
            (λ j.
              Covers blank less equals (if i == j then merged else value blank b.storage.owner j)
                (value blank b.storage.owner j))
            e (rw (==_self i) (laws.equivalence.symmetric _ _ merged-alike, merged-over))
      | no other ↦
          let e : (i == j) ≡ false = ground arith in
          rw e (laws.equivalence.reflexive _, laws.irreflexive _)
    ])

    pub joined-IsKnown : IsKnown blank equals joined
    unfolding merge_dupe
    joined-IsKnown = record {
      knows = k.knows;
      once = k.once;
      apart =
          AreApart-alike blank equals laws.equivalence b.storage.owner joined.storage.owner b.known
            (λ j p. laws.equivalence.symmetric _ _ (joined-Covers j (sym (k.knows j) ∙ p)).0)
            k.apart;
    }

    pub joined-IsSound : IsSound joined
    unfolding merge_dupe queued distinct
    joined-IsSound =
        let w = written-IsSound blank a b v in
        elim (dec_lt b.storage.size b.storage.max_size) [
          | yes h ↦
              let e : (b.storage.size == b.storage.max_size) ≡ false = ground arith in
              rw e (record {
                sized = length-set (written a b).storage.owner i merged ∙ w.sized;
                room = w.room;
                filling = w.filling;
                full = λ e. absurd (omega arith);
              })
          | no h ↦
              let e : (b.storage.size == b.storage.max_size) ≡ true = ground (arith, v.room) in
              let f = (v.full (omega (arith, v.room))).1 in
              let at : queued i (dropped b.dropper) ≡ true = f.has i ∙ used in
              let d = distinct-remove i (dropped b.dropper) f.once in
              rw e (record {
                sized = length-set (written a b).storage.owner i merged ∙ w.sized;
                room = w.room;
                filling = λ small. absurd (omega arith);
                full = λ _. (
                  refl,
                  record {
                    spare = f.spare;
                    once = ground (arith, d);
                    many = length-remove i (dropped b.dropper) at ∙ f.many;
                    has = λ j. queued_again i j (dropped b.dropper) at ∙ f.has j;
                  },
                );
              })
        ]

    pub joined-AreBest :
        (seen : List A)
        → AreBest blank less (Covers blank less equals) seen b
        → AreBest blank less (Covers blank less equals) (a ∷ seen) joined
    unfolding merge_dupe
    joined-AreBest seen best = (
      inl (
        i,
        used,
        rw (at_joined i used, ==_self i)
            (
              laws.equivalence.transitive _ _ a (laws.equivalence.symmetric _ _ merged-alike)
                  with_new,
              merged-new,
            ),
      ),
      old seen best,
    )
      where
        old :
            (seen : List A)
            → AreBest blank less (Covers blank less equals) seen b
            → AreBest blank less (Covers blank less equals) seen joined
        old [] best = tt
        old (c ∷ seen) (inl (j, u, (e, h)), best) =
            let (e', h') = joined-Covers j u in
            (
              inl (j, u, (laws.equivalence.transitive _ _ c e' e, laws.through _ _ c h' h)),
              old seen best,
            )
        old (c ∷ seen) (inr (full, over), best) =
            (inr (full, λ j u. laws.through _ _ c (joined-Covers j u).1 (over j u)), old seen best)
