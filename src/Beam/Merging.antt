-- ===== src/Beam/Merging.antt =====
-- A beam that merges duplicates: what an insertion into it keeps.
pub mod New
pub mod Join
use native.Mathlib.Decide.{ℕ_discrete, dec_lt}
use memt.Prelude.{
  ℕ, ◌+◌, ◌≤◌, ◌<◌, ◌≡◌, ◌∙◌, refl, sym, ap, subst, Bool, true, false, Option, none, some, not,
  ◌&&◌, List, [], ◌∷◌, leb, ◌==◌, if◌then◌else◌, set, length, remove, queued, distinct, arith, inl,
  inr, Bool-cases, length-set, get_or-set, length-remove, distinct-remove, queued_again, ==_self,
  ◌⊎◌,
}
use memt.Beam.{
  Beam, Dupe, hash_dupe, null_dupe, use_available, replace_available, in_use, value, reset_beam,
  build_dropper, keep, evict, place, merge_dupe, insert_available, insert, dropped, one_best_merge,
  find_equal, erase_equal, is_full,
}
use memt.Beam.Sound.{
  IsSound, IsBottom, IsAllocated, reset_beam-IsSound, evict-IsSound, heap, lowest, queued-heap,
  queued-lowest, queued-remove_other,
}
use memt.Beam.Written.{written, written-IsSound, at_new, at_old, spare}
use memt.Beam.Best.{AreBest, IsHeld, IsBeaten, IsFor, place-AreBest}
use memt.Beam.Dupes.{
  IsEquivalence, AreApart, IsKnown, find_equal-none, find_equal-some, AreApart-alike, AreApart-add,
  erase_equal-AreApart,
}

-- What a merge promises: a value equal to what it merges into, and not below either.
pub record IsMerge {ℓ} {A : Type ℓ} (less equals : A → A → Bool) (merge : A → A → A × Bool)
    : Type ℓ where
  pub alike : (a b : A) → equals a b ≡ true → equals a (merge a b).0 ≡ true
  pub over_to : (a b : A) → equals a b ≡ true → less (merge a b).0 a ≡ false
  pub over_with : (a b : A) → equals a b ≡ true → less (merge a b).0 b ≡ false

module _ {ℓ} {A : Type ℓ} (blank : A) (less equals : A → A → Bool) where
  -- A value that is equal and not below.
  abbrev pub Covers : A → A → Type 0
  Covers a c = (equals a c ≡ true) × (less a c ≡ false)

  -- The laws of the beam's parameters.
  pub record Laws (merge : A → A → A × Bool) (bottom : List A → List ℕ → ℕ) : Type ℓ where
    pub equivalence : IsEquivalence equals
    pub merges : IsMerge less equals merge
    pub is_bottom : IsBottom blank less bottom
    pub irreflexive : (a : A) → less a a ≡ false
    pub through : (a b c : A) → less a b ≡ false → less b c ≡ false → less a c ≡ false

module _ {ℓ} {A : Type ℓ} (blank : A) (less equals : A → A → Bool) (merge : A → A → A × Bool)
    (bottom : List A → List ℕ → ℕ) (laws : Laws blank less equals merge bottom) where
  pub Covers-IsFor : IsFor blank less (Covers blank less equals)
  Covers-IsFor = record {
    same = λ a. (laws.equivalence.reflexive a, laws.irreflexive a);
    lift = λ x a c k h. laws.through x a c h k.1;
  }

  -- The other values that are known do not matter to the slots.
  unfoldable pub knowing : List ℕ → Beam A → Beam A
  knowing known b = record b { known = known }

  module _ (known : List ℕ) (b : Beam A) where
    pub knowing-IsSound : IsSound b → IsSound (knowing known b)
    unfolding knowing
    knowing-IsSound v = record {
      sized = v.sized;
      room = v.room;
      filling = v.filling;
      full = λ e.
          let f = (v.full e).1 in
          ((v.full e).0, record { spare = f.spare; once = f.once; many = f.many; has = f.has });
    }

    pub knowing-AreBest :
        (seen : List A)
        → AreBest blank less (Covers blank less equals) seen b
        → AreBest blank less (Covers blank less equals) seen (knowing known b)
    unfolding knowing
    knowing-AreBest [] k = tt
    knowing-AreBest (c ∷ seen) (k, rest) = (k, knowing-AreBest seen rest)

  -- The steps of an insertion into a sound beam, whose values that are known are those in use.
  module _ (a : A) (b : Beam A) (v : IsSound b) (k : IsKnown blank equals b) where
    in_use-available : in_use b.storage b.storage.available ≡ false
    in_use-available = ground (arith, ==_self b.storage.available)

    pub unknown : queued b.storage.available b.known ≡ false
    unknown = k.knows b.storage.available ∙ in_use-available

    pub at_known :
        (i : ℕ)
        → queued i b.known ≡ true
        → value blank (written a b).storage.owner i ≡ value blank b.storage.owner i
    at_known i q = at_old blank a b v i (sym (k.knows i) ∙ q)

    pub written-AreApart : AreApart blank equals (written a b).storage.owner b.known
    written-AreApart =
        AreApart-alike blank equals laws.equivalence b.storage.owner (written a b).storage.owner
          b.known (λ i q. rw (at_known i q) (laws.equivalence.reflexive _)) k.apart
