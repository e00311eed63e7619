-- ===== src/Beam/Sound.antt =====
-- The invariant of a beam, and what an insertion does to its slots.
use native.Mathlib.Decide.{ℕ_discrete}
use memt.Prelude.{
  ℕ, zero, suc, ◌+◌, ◌≤◌, ◌<◌, ◌≡◌, ◌≢◌, refl, Bool, true, false, not, ◌&&◌, none, some, List, ◌∷◌,
  ltb, leb, ◌==◌, length, remove, queued, distinct, queued-remove, queued-remove_ne,
  distinct-remove, length-remove, arith, inl, inr, Bool-cases, length-replicate, ==_self, ◌⊎◌,
}
use memt.Beam.{
  Storage, Beam, Dupe, reset_storage, use_available, replace_available, in_use, slots, slots_from,
  value, reset_beam, dropped, build_dropper, keep, evict,
}

pub queued-slots_from :
    (rounds i skip j : ℕ)
    → queued j (slots_from rounds i skip) ≡ (leb i j && ltb j (i + rounds)) && not (j == skip)
unfolding queued
queued-slots_from zero i skip j = ground arith
queued-slots_from (suc rounds) i skip j =
    let ih = queued-slots_from rounds (suc i) skip j in
    elim (ℕ_discrete i skip) [ yes same ↦ ground (arith, ih) | no other ↦ ground (arith, ih) ]

pub distinct-slots_from : (rounds i skip : ℕ) → distinct (slots_from rounds i skip) ≡ true
unfolding distinct
distinct-slots_from zero i skip = refl
distinct-slots_from (suc rounds) i skip =
    ground (arith, distinct-slots_from rounds (suc i) skip, queued-slots_from rounds (suc i) skip i)

length-slots_past : (rounds i skip : ℕ) → skip < i → length (slots_from rounds i skip) ≡ rounds
length-slots_past zero i skip h = refl
length-slots_past (suc rounds) i skip h = ground (arith, length-slots_past rounds (suc i) skip)

pub length-slots_from :
    (rounds i skip : ℕ)
    → i ≤ skip
    → skip < i + rounds
    → suc (length (slots_from rounds i skip)) ≡ rounds
length-slots_from zero i skip h k = absurd (omega arith)
length-slots_from (suc rounds) i skip h k =
    ground (arith, length-slots_from rounds (suc i) skip, length-slots_past rounds (suc i) skip)

-- The slots of a full beam: all but the available one, which are in the dropper, each once.
pub record IsFull {ℓ} {A : Type ℓ} (s : Storage A) (q : List ℕ) : Type 0 where
  pub spare : s.available ≤ s.max_size
  pub once : distinct q ≡ true
  pub many : length q ≡ s.size
  pub has : (i : ℕ) → queued i q ≡ in_use s i

pub record IsSound {ℓ} {A : Type ℓ} (b : Beam A) : Type ℓ where
  pub sized : length b.storage.owner ≡ b.storage.max_size + 1
  pub room : b.storage.size ≤ b.storage.max_size
  pub filling :
      b.storage.size < b.storage.max_size
      → (b.storage.available ≡ b.storage.size) × (b.dropper ≡ none)
  pub full :
      b.storage.size ≡ b.storage.max_size
      → (b.dropper ≡ some (dropped b.dropper)) × IsFull b.storage (dropped b.dropper)

-- A storage that has an array has one of its size.
abbrev pub IsAllocated {ℓ} : {A : Type ℓ} → Storage A → Type 0
IsAllocated s = (s.max_size ≡ 0) ⊎ (length s.owner ≡ s.max_size + 1)

module _ {ℓ} {A : Type ℓ} (blank : A) where
  pub reset_beam-IsSound :
      (max_size : ℕ) (b : Beam A)
      → 0 < max_size
      → IsAllocated b.storage
      → IsSound (reset_beam blank max_size b)
  unfolding reset_beam reset_storage
  reset_beam-IsSound max_size b pos allocated = record {
    sized = elim (Bool-cases (b.storage.max_size == max_size)) [
      | inl same ↦ rw same (ground (arith, allocated))
      | inr other ↦ rw other (length-replicate (max_size + 1) blank)
    ];
    room = omega arith;
    filling = λ h. (refl, refl);
    full = λ e. absurd (omega arith);
  }

module _ {ℓ} {A : Type ℓ} (blank : A) (less : A → A → Bool) (dupe : Dupe A)
    (merge : A → A → A × Bool) (bottom : List A → List ℕ → ℕ) (b : Beam A) (v : IsSound b) where
  -- The beam while it has room.
  filled_slots :
      b.storage.size < b.storage.max_size
      → IsFull (use_available b.storage) (slots (use_available b.storage))
  unfolding use_available
  filled_slots h =
      let n = b.storage.size + 1 + 1 in
      let skip = b.storage.available + 1 in
      record {
        spare = omega (arith, v.filling h);
        once = distinct-slots_from n 0 skip;
        many = omega (
          arith,
          v.filling h,
          length-slots_from n 0 skip (omega arith) (omega (arith, v.filling h)),
        );
        has = λ i. ground (arith, queued-slots_from n 0 skip i);
      }

  pub keep-IsSound :
      b.storage.size < b.storage.max_size → IsSound (keep blank less dupe merge bottom b)
  unfolding keep build_dropper use_available
  keep-IsSound h = elim (Bool-cases (b.storage.size + 1 == b.storage.max_size)) [
    | inl filled ↦
        rw (filled, (v.filling h).1)
          (record {
            sized = v.sized;
            room = omega arith;
            filling = λ h. absurd (ground arith);
            full = λ e. (refl, filled_slots h);
          })
    | inr more ↦ rw more (record {
      sized = v.sized;
      room = omega arith;
      filling = λ _. (omega (arith, v.filling h), (v.filling h).1);
      full = λ e. absurd (ground arith);
    })
  ]

pub queued-remove_other : (i r : ℕ) (q : List ℕ) → i ≢ r → queued i (remove r q) ≡ queued i q
queued-remove_other i r q n = ground (arith, queued-remove r i q, queued-remove_ne r i q n)

-- The documented promise of the heap and of the set: what they yield is in them, and none of the
-- other values is lower.
abbrev pub IsBottom {ℓ} : {A : Type ℓ} → A → (A → A → Bool) → (List A → List ℕ → ℕ) → Type ℓ
IsBottom {A = A} blank less bottom =
    (owner : List A) (q : List ℕ) (i : ℕ)
    → queued i q ≡ true
    → (queued (bottom owner q) q ≡ true)
      × (less (value blank owner i) (value blank owner (bottom owner q)) ≡ false)

module _ {ℓ} {A : Type ℓ} (blank : A) (less : A → A → Bool) (dupe : Dupe A)
    (merge : A → A → A × Bool) (bottom : List A → List ℕ → ℕ)
    (is_bottom : IsBottom blank less bottom) (b : Beam A) (v : IsSound b)
    (filled : b.storage.size ≡ b.storage.max_size) where
  abbrev pub heap : List ℕ
  heap = b.storage.available ∷ dropped b.dropper

  abbrev pub lowest : ℕ
  lowest = bottom b.storage.owner heap

  heap_once : distinct heap ≡ true
  unfolding distinct
  heap_once =
      let f = (v.full filled).1 in
      (ground (arith, f.once, f.has b.storage.available, ==_self b.storage.available))

  -- The dropper with the available value has all slots.
  pub queued-heap : (i : ℕ) → queued i heap ≡ leb i b.storage.max_size
  unfolding queued
  queued-heap i = let f = (v.full filled).1 in (ground (arith, f.has i, f.spare))

  pub queued-lowest : queued lowest heap ≡ true
  unfolding queued
  queued-lowest =
      (is_bottom b.storage.owner heap b.storage.available
        (ground (arith, ==_self b.storage.available))).0

  pub evict-IsSound : IsSound (evict blank less dupe merge bottom b)
  unfolding evict replace_available
  evict-IsSound = record {
    sized = v.sized;
    room = v.room;
    filling = λ h. absurd (omega arith);
    full = λ e. (
      refl,
      record {
        spare = ground (arith, queued-heap lowest, queued-lowest);
        once = (distinct-remove lowest heap heap_once).0;
        many = omega (arith, length-remove lowest heap queued-lowest, (v.full filled).1.many);
        has = λ i. elim (ℕ_discrete i lowest) [
          | yes same ↦
              rw same (ground (arith, (distinct-remove lowest heap heap_once).1, ==_self lowest))
          | no other ↦ ground (arith, queued-remove_other i lowest heap other, queued-heap i)
        ];
      },
    );
  }

  -- No value that stays is below the one that leaves.
  pub evict-least :
      (i : ℕ)
      → i ≤ b.storage.max_size
      → less (value blank b.storage.owner i) (value blank b.storage.owner lowest) ≡ false
  evict-least i h = (is_bottom b.storage.owner heap i (ground (arith, queued-heap i))).1
