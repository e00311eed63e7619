-- ===== src/Beam/Merging/New.antt =====
-- The insertion of a value that equals none in the beam.
use memt.Prelude.{
  ℕ, ◌+◌, ◌<◌, ◌≡◌, ◌∙◌, sym, Bool, true, false, List, ◌∷◌, leb, ◌==◌, queued, distinct, arith, inl,
  inr, Bool-cases,
}
use memt.Beam.{
  Beam, hash_dupe, null_dupe, use_available, replace_available, in_use, value, build_dropper, keep,
  evict, dropped,
}
use memt.Beam.Sound.{IsSound, queued-heap, queued-lowest}
use memt.Beam.Written.{written, written-IsSound}
use memt.Beam.Dupes.{AreApart, IsKnown, AreApart-add, erase_equal-AreApart}
use memt.Beam.Merging.{Laws, knowing, unknown, written-AreApart}

module _ {ℓ} {A : Type ℓ} (blank : A) (less equals : A → A → Bool) (merge : A → A → A × Bool)
    (bottom : List A → List ℕ → ℕ) (laws : Laws blank less equals merge bottom) (a : A) (b : Beam A)
    (v : IsSound b) (k : IsKnown blank equals b) where
  -- The value is none that is known.
  module _
      (new : (i : ℕ)
        → queued i b.known ≡ true
        → equals
            (value blank (written a b).storage.owner i)
            (value blank (written a b).storage.owner b.storage.available)
          ≡ false) where
    abbrev pub more : List ℕ
    more = b.storage.available ∷ b.known

    abbrev pub listed : Beam A
    listed = knowing blank less equals merge bottom laws more (written a b)

    more-AreApart : AreApart blank equals (written a b).storage.owner more
    more-AreApart =
        AreApart-add blank equals laws.equivalence (written a b).storage.owner b.known
          b.storage.available new (written-AreApart blank less equals merge bottom laws a b v k)

    more_once : distinct more ≡ true
    unfolding distinct
    more_once = ground (arith, (unknown blank less equals merge bottom laws a b v k), k.once)

    pub keep-IsKnown :
        b.storage.size < b.storage.max_size
        → IsKnown blank equals (keep blank less (hash_dupe blank equals) merge bottom listed)
    unfolding keep build_dropper use_available knowing queued
    keep-IsKnown h =
        let has : (i : ℕ) → queued i more ≡ in_use (use_available b.storage) i =
          λ i. ground (arith, k.knows i, v.filling h) in
        elim (Bool-cases (b.storage.size + 1 == b.storage.max_size)) [
          | inl e ↦ rw e (record { knows = has; once = more_once; apart = more-AreApart })
          | inr e ↦ rw e (record { knows = has; once = more_once; apart = more-AreApart })
        ]

    pub evict-IsKnown :
        b.storage.size ≡ b.storage.max_size
        → IsKnown blank equals (evict blank less (hash_dupe blank equals) merge bottom listed)
    unfolding evict replace_available knowing hash_dupe queued
    evict-IsKnown filled =
        let w = written-IsSound blank a b v in
        let r = bottom (written a b).storage.owner (b.storage.available ∷ dropped b.dropper) in
        let all : (i : ℕ) → queued i more ≡ leb i b.storage.max_size =
          λ i. ground (arith, k.knows i, (v.full filled).1.spare) in
        let in_heap : leb r b.storage.max_size ≡ true =
          sym
            (queued-heap blank less null_dupe merge bottom laws.is_bottom (written a b) w filled r)
          ∙ queued-lowest blank less null_dupe merge bottom laws.is_bottom (written a b) w filled in
        let (has, once, apart) =
          erase_equal-AreApart blank equals laws.equivalence (written a b).storage.owner more r
            (all r ∙ in_heap) more_once more-AreApart in
        record { knows = λ i. has i ∙ ground (arith, all i); once = once; apart = apart }
