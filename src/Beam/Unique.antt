-- ===== src/Beam/Unique.antt =====
-- A beam with a HashDupe: of equal values it keeps one, and that is none of the lower ones.
use mathlib.Core.Bool.{false≢true}
use native.Mathlib.Decide.{dec_lt}
use memt.Prelude.{
  ℕ, ◌<◌, ◌≡◌, ◌≢◌, ◌∙◌, refl, sym, subst, Bool, true, false, Option, none, some, List, [], ◌∷◌,
  ◌==◌, queued, distinct, arith, inl, inr, Bool-cases,
}
use memt.Beam.{
  Beam, hash_dupe, in_use, value, reset_beam, reset_storage, place, insert_available, settle,
  insert, one_best_merge, find_equal,
}
use memt.Beam.Sound.{IsSound, IsAllocated, reset_beam-IsSound}
use memt.Beam.Written.{written}
use memt.Beam.Best.{AreBest, place-AreBest}
use memt.Beam.Dupes.{IsEquivalence, IsKnown, find_equal-none, find_equal-some}
use memt.Beam.Merging.{
  IsMerge, Laws, Covers, Covers-IsFor, knowing, knowing-IsSound, knowing-AreBest,
}
use memt.Beam.Merging.New.{listed, keep-IsKnown, evict-IsKnown}
use memt.Beam.Merging.Join.{joined-IsKnown, joined-IsSound, joined-AreBest}

module _ {ℓ} {A : Type ℓ} (less equals : A → A → Bool) (law : IsEquivalence equals)
    (irreflexive : (a : A) → less a a ≡ false)
    (asymmetric : (a b : A) → less a b ≡ true → less b a ≡ false) where
  pub one_best_merge-IsMerge : IsMerge less equals (one_best_merge less)
  unfolding one_best_merge
  one_best_merge-IsMerge = record {
    alike =
        λ a b e. elim (Bool-cases (less a b)) [ inl h ↦ rw h e | inr h ↦ rw h (law.reflexive a) ];
    over_to = λ a b e. elim (Bool-cases (less a b)) [
      | inl h ↦ rw h (asymmetric a b h)
      | inr h ↦ rw h (irreflexive a)
    ];
    over_with =
        λ a b e. elim (Bool-cases (less a b)) [ inl h ↦ rw h (irreflexive b) | inr h ↦ rw h h ];
  }

module _ {ℓ} {A : Type ℓ} (blank : A) (less equals : A → A → Bool) (merge : A → A → A × Bool)
    (bottom : List A → List ℕ → ℕ) where
  -- The values inserted one by one, the last of them first.
  abbrev pub insert_merging : List A → Beam A → Beam A
  insert_merging [] b = b
  insert_merging (a ∷ before) b =
      insert blank less (hash_dupe blank equals) merge bottom a (insert_merging before b)

  -- What an insertion keeps.
  pub record IsMerging (seen : List A) (b : Beam A) : Type ℓ where
    pub sound : IsSound b
    pub known : IsKnown blank equals b
    pub best : AreBest blank less (Covers blank less equals) seen b

  module _ (laws : Laws blank less equals merge bottom) where
    module _ (a : A) (seen : List A) (b : Beam A) (k : IsMerging seen b) where
      abbrev pub found : Option ℕ
      found =
          find_equal blank equals (written a b).storage.owner
            (value blank (written a b).storage.owner b.storage.available) b.known

      abbrev pub answered : Option ℕ → Beam A
      answered f =
          settle blank less (hash_dupe blank equals) merge bottom
            (elim f [
              | none ↦ (none, b.storage.available ∷ b.known)
              | some dupe ↦ (some dupe, b.known)
            ])
            (written a b)

      pub insert-answered :
          insert blank less (hash_dupe blank equals) merge bottom a b ≡ answered found
      unfolding insert insert_available hash_dupe
      insert-answered = refl

      module _ (e : found ≡ none) where
        new :
            (i : ℕ)
            → queued i b.known ≡ true
            → equals
                (value blank (written a b).storage.owner i)
                (value blank (written a b).storage.owner b.storage.available)
              ≡ false
        new = find_equal-none blank equals _ _ b.known e

        place-IsKnown : IsKnown blank equals (
            place blank less
              (hash_dupe blank equals)
              merge
              bottom
              (listed blank less equals merge bottom laws a b k.sound k.known new))
        unfolding place knowing
        place-IsKnown = elim (dec_lt b.storage.size b.storage.max_size) [
          | yes h ↦
              let e : (b.storage.size == b.storage.max_size) ≡ false = ground arith in
              rw e (keep-IsKnown blank less equals merge bottom laws a b k.sound k.known new h)
          | no h ↦
              let e : (b.storage.size == b.storage.max_size) ≡ true =
                ground (arith, k.sound.room) in
              rw e (
                evict-IsKnown blank less equals merge bottom laws a b k.sound k.known new
                  (omega (arith, k.sound.room)))
        ]

        answered-none : IsMerging (a ∷ seen) (answered none)
        unfolding settle knowing
        answered-none =
            let known = b.storage.available ∷ b.known in
            let (sound, best) =
              place-AreBest blank less (Covers blank less equals)
                (Covers-IsFor blank less equals merge bottom laws) (hash_dupe blank equals) merge
                bottom laws.is_bottom laws.through a
                (knowing blank less equals merge bottom laws known b)
                (knowing-IsSound blank less equals merge bottom laws known b k.sound) seen
                (knowing-AreBest blank less equals merge bottom laws known b seen k.best) in
            record { sound = sound; known = place-IsKnown; best = best }

      answered-some : (i : ℕ) → found ≡ some i → IsMerging (a ∷ seen) (answered (some i))
      unfolding settle
      answered-some i e =
          let (q, same) = find_equal-some blank equals _ _ b.known i e in
          record {
            sound = joined-IsSound blank less equals merge bottom laws a b k.sound k.known i q same;
            known = joined-IsKnown blank less equals merge bottom laws a b k.sound k.known i q same;
            best =
                joined-AreBest blank less equals merge bottom laws a b k.sound k.known i q same seen
                  k.best;
          }

      answered-IsMerging : (f : Option ℕ) → found ≡ f → IsMerging (a ∷ seen) (answered f)
      answered-IsMerging none e = answered-none e
      answered-IsMerging (some i) e = answered-some i e

      -- An insertion keeps what the insertions before it have kept.
      pub insert-IsMerging :
          IsMerging (a ∷ seen) (insert blank less (hash_dupe blank equals) merge bottom a b)
      insert-IsMerging =
          subst (λ b. IsMerging (a ∷ seen) b) (sym insert-answered) (answered-IsMerging found refl)

    module _ (max_size : ℕ) (b : Beam A) (pos : 0 < max_size)
        (allocated : IsAllocated b.storage) where
      pub reset_beam-IsMerging : IsMerging [] (reset_beam blank max_size b)
      unfolding reset_beam reset_storage queued distinct
      reset_beam-IsMerging = record {
        sound = reset_beam-IsSound blank max_size b pos allocated;
        known = record {
          knows = λ i. ground arith;
          once = refl;
          apart = λ i j p q e. absurd (false≢true p);
        };
        best = tt;
      }

      insert_merging-IsMerging :
          (all : List A) → IsMerging all (insert_merging all (reset_beam blank max_size b))
      insert_merging-IsMerging [] = reset_beam-IsMerging
      insert_merging-IsMerging (a ∷ all) = insert-IsMerging a all _ (insert_merging-IsMerging all)

      -- After a Reset to at least one value, and the insertion of the values of `all` with a HashDupe,
      -- different slots in use have values that are not equal. The laws are those of the parameters: equality is an
      -- equivalence, a merge gives a value that is equal and not below, the dropper yields a lowest
      -- value, and in the order "not below" is transitive.
      pub insert_merging_apart :
          (all : List A) (i j : ℕ)
          → in_use (insert_merging all (reset_beam blank max_size b)).storage i ≡ true
          → in_use (insert_merging all (reset_beam blank max_size b)).storage j ≡ true
          → i ≢ j
          → let owner = (insert_merging all (reset_beam blank max_size b)).storage.owner in
            equals (value blank owner i) (value blank owner j) ≡ false
      insert_merging_apart all i j u w other =
          let beam = insert_merging all (reset_beam blank max_size b) in
          let k = (insert_merging-IsMerging all).known in
          elim (Bool-cases
            (equals (value blank beam.storage.owner i) (value blank beam.storage.owner j))) [
              | inl same ↦ absurd (other (k.apart i j (k.knows i ∙ u) (k.knows j ∙ w) same))
              | inr e ↦ e
            ]

      -- After a Reset to at least one value, and the insertion of the values of `all` with a HashDupe, the
      -- beam has for each of them an equal value that is not below it, or it is full and no value in it
      -- is below that value. The laws are those of the parameters: equality is an equivalence, a merge
      -- gives a value that is equal and not below, the dropper yields a lowest value, and in the order
      -- "not below" is transitive.
      pub insert_merging-AreBest :
          (all : List A)
          → AreBest blank less
              (Covers blank less equals)
              all
              (insert_merging all (reset_beam blank max_size b))
      insert_merging-AreBest all = (insert_merging-IsMerging all).best
