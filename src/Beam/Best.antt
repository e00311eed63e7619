-- ===== src/Beam/Best.antt =====
-- A beam keeps the best of the values that are inserted into it, whatever it does with duplicates.
use native.Mathlib.Decide.{ℕ_discrete, dec_lt}
use memt.Prelude.{
  ℕ, ◌+◌, ◌≤◌, ◌<◌, ◌≡◌, refl, subst, Bool, true, false, List, [], ◌∷◌, leb, ◌==◌, arith, inl, inr,
  Bool-cases, ◌⊎◌,
}
use memt.Beam.{
  Beam, Dupe, null_dupe, use_available, replace_available, in_use, value, reset_beam, build_dropper,
  keep, evict, insert_available, settle, insert, place,
}
use memt.Beam.Sound.{
  IsSound, IsBottom, IsAllocated, reset_beam-IsSound, keep-IsSound, evict-IsSound, evict-least,
  lowest,
}
use memt.Beam.Written.{written, written-IsSound, at_new, at_old}

module _ {ℓ} {A : Type ℓ} (blank : A) (less : A → A → Bool) where
  -- The beam is full, and no value in it is below the given one.
  abbrev pub IsBeaten : A → Beam A → Type 0
  IsBeaten a b =
      (b.storage.size ≡ b.storage.max_size)
      × ((i : ℕ) → in_use b.storage i ≡ true → less (value blank b.storage.owner i) a ≡ false)

module _ {ℓ m} {A : Type ℓ} (blank : A) (less : A → A → Bool) where
  module _ (is_for : A → A → Type m) where
    -- The beam has a value that counts for the given one in a slot.
    abbrev pub IsHeld : A → Beam A → Type m
    IsHeld a b = (i : ℕ) × (in_use b.storage i ≡ true) × is_for (value blank b.storage.owner i) a

    -- For each value of the list, one is in the beam that counts for it, or no value in the beam is
    -- below it.
    abbrev pub AreBest : List A → Beam A → Type m
    AreBest [] b = Unit {m}
    AreBest (a ∷ seen) b = (IsHeld a b ⊎ IsBeaten blank less a b) × AreBest seen b

  -- A value that counts for another is one that the values below are not below either.
  pub record IsFor (is_for : A → A → Type m) : Type (ℓ ⊔ m) where
    pub same : (a : A) → is_for a a
    pub lift : (x a c : A) → is_for a c → less x a ≡ false → less x c ≡ false

module _ {ℓ m} {A : Type ℓ} (blank : A) (less : A → A → Bool) (is_for : A → A → Type m)
    (law : IsFor blank less is_for) (dupe : Dupe A) (merge : A → A → A × Bool)
    (bottom : List A → List ℕ → ℕ) (is_bottom : IsBottom blank less bottom)
    (through : (a b c : A) → less a b ≡ false → less b c ≡ false → less a c ≡ false) (a : A)
    (b : Beam A) (v : IsSound b) where
  new_for : is_for (value blank (written a b).storage.owner b.storage.available) a
  new_for = rw (at_new blank a b v) (law.same a)

  old_for :
      (i : ℕ) (c : A)
      → in_use b.storage i ≡ true
      → is_for (value blank b.storage.owner i) c
      → is_for (value blank (written a b).storage.owner i) c
  old_for i c u e = rw (at_old blank a b v i u) e

  -- While there is room.
  module _ (h : b.storage.size < b.storage.max_size) where
    abbrev kept : Beam A
    kept = keep blank less dupe merge bottom (written a b)

    kept-storage : kept.storage ≡ use_available (written a b).storage
    unfolding keep build_dropper use_available
    kept-storage = elim (Bool-cases (b.storage.size + 1 == b.storage.max_size)) [
      | inl e ↦ rw e refl
      | inr e ↦ rw e refl
    ]

    kept-IsHeld :
        (i : ℕ) (c : A)
        → leb i b.storage.size ≡ true
        → is_for (value blank (written a b).storage.owner i) c
        → IsHeld blank less is_for c kept
    unfolding use_available
    kept-IsHeld i c u e = rw kept-storage (i, ground (arith, (v.filling h).0), e)

    keep-AreBest :
        (seen : List A)
        → AreBest blank less is_for seen b
        → AreBest blank less is_for (a ∷ seen) kept
    keep-AreBest seen k = (
      inl (kept-IsHeld b.storage.available a (ground (arith, (v.filling h).0)) new_for),
      old seen k,
    )
      where
        old :
            (seen : List A) → AreBest blank less is_for seen b → AreBest blank less is_for seen kept
        old [] k = tt
        old (c ∷ seen) (inl (i, u, e), k) =
            (inl (kept-IsHeld i c (ground arith) (old_for i c u e)), old seen k)
        old (c ∷ seen) (inr (full, e), k) = absurd (omega arith)

  -- When it is full.
  module _ (filled : b.storage.size ≡ b.storage.max_size) where
    abbrev evicted : Beam A
    evicted = evict blank less dupe merge bottom (written a b)

    abbrev leaving : ℕ
    leaving =
        lowest blank less dupe merge bottom is_bottom (written a b) (written-IsSound blank a b v)
          filled

    least :
        (i : ℕ)
        → i ≤ b.storage.max_size
        → less
            (value blank (written a b).storage.owner i)
            (value blank (written a b).storage.owner leaving)
          ≡ false
    least =
        evict-least blank less dupe merge bottom is_bottom (written a b)
          (written-IsSound blank a b v) filled

    leaving-le : leaving ≤ b.storage.max_size
    unfolding evict replace_available
    leaving-le =
        ((evict-IsSound blank less dupe merge bottom is_bottom (written a b)
            (written-IsSound blank a b v) filled).full
          filled).1.spare

    -- Each slot's value is held or beaten.
    settled :
        (i : ℕ) (c : A)
        → leb i b.storage.size ≡ true
        → is_for (value blank (written a b).storage.owner i) c
        → IsHeld blank less is_for c evicted ⊎ IsBeaten blank less c evicted
    unfolding evict replace_available
    settled i c u e = elim (ℕ_discrete i leaving) [
      | no other ↦ inl (i, ground arith, e)
      | yes same ↦ inr (
        filled,
        λ j w.
            law.lift _ (value blank (written a b).storage.owner leaving) c
              (subst (λ k. is_for (value blank (written a b).storage.owner k) c) same e)
              (least j (ground arith)),
      )
    ]

    still-IsBeaten : (c : A) → IsBeaten blank less c b → IsBeaten blank less c evicted
    unfolding evict replace_available
    still-IsBeaten c (full, e) = (
      full,
      λ j w. elim (ℕ_discrete b.storage.available j) [
        | no other ↦
            let u : in_use b.storage j ≡ true = ground arith in rw (at_old blank a b v j u) (e j u)
        | yes same ↦
            let u : in_use b.storage leaving ≡ true = ground (arith, leaving-le) in
            through _ (value blank (written a b).storage.owner leaving) c (least j (ground arith))
              (rw (at_old blank a b v leaving u) (e leaving u))
      ],
    )

    evict-AreBest :
        (seen : List A)
        → AreBest blank less is_for seen b
        → AreBest blank less is_for (a ∷ seen) evicted
    evict-AreBest seen k = (
      settled b.storage.available a (ground (arith, (v.full filled).1.spare)) new_for,
      old seen k,
    )
      where
        old :
            (seen : List A)
            → AreBest blank less is_for seen b
            → AreBest blank less is_for seen evicted
        old [] k = tt
        old (c ∷ seen) (inl (i, u, e), k) =
            (settled i c (ground arith) (old_for i c u e), old seen k)
        old (c ∷ seen) (inr e, k) = (inr (still-IsBeaten c e), old seen k)

  pub place-AreBest :
      (seen : List A)
      → AreBest blank less is_for seen b
      → IsSound (place blank less dupe merge bottom (written a b))
        × AreBest blank less is_for (a ∷ seen) (place blank less dupe merge bottom (written a b))
  unfolding place
  place-AreBest seen k = elim (dec_lt b.storage.size b.storage.max_size) [
    | yes h ↦
        let more : (b.storage.size == b.storage.max_size) ≡ false = ground arith in
        rw more (
          keep-IsSound blank less dupe merge bottom (written a b) (written-IsSound blank a b v) h,
          keep-AreBest h seen k,
        )
    | no h ↦
        let filled : (b.storage.size == b.storage.max_size) ≡ true = ground (arith, v.room) in
        let e : b.storage.size ≡ b.storage.max_size = omega (arith, v.room) in
        rw filled (
          evict-IsSound blank less dupe merge bottom is_bottom (written a b)
              (written-IsSound blank a b v) e,
          evict-AreBest e seen k,
        )
  ]

module _ {ℓ} {A : Type ℓ} (blank : A) (less : A → A → Bool) (merge : A → A → A × Bool)
    (bottom : List A → List ℕ → ℕ) where
  -- The values inserted one by one, the last of them first.
  abbrev pub insert_all : List A → Beam A → Beam A
  insert_all [] b = b
  insert_all (a ∷ before) b = insert blank less null_dupe merge bottom a (insert_all before b)

  module _ (is_bottom : IsBottom blank less bottom)
      (through : (a b c : A) → less a b ≡ false → less b c ≡ false → less a c ≡ false) where
    path-IsFor : IsFor blank less (λ (a c : A). a ≡ c)
    path-IsFor = record { same = λ a. refl; lift = λ x a c e h. subst (λ d. less x d ≡ false) e h }

    insert-AreBest :
        (a : A) (b : Beam A)
        → IsSound b
        → (seen : List A) → AreBest blank less (λ (a c : A). a ≡ c) seen b
        → IsSound (insert blank less null_dupe merge bottom a b)
          × AreBest blank less
              (λ (a c : A). a ≡ c)
              (a ∷ seen)
              (insert blank less null_dupe merge bottom a b)
    unfolding insert insert_available place settle
    insert-AreBest a b v seen k =
        place-AreBest blank less _ path-IsFor null_dupe merge bottom is_bottom through a b v seen k

    -- After a Reset to at least one value, the insertion of the values of `all`, without duplicate
    -- detection, keeps the best of them: each is in the beam, or the beam is full and no value in it
    -- is below that value. The order is one in which "not below" is transitive, and the dropper yields
    -- a lowest value.
    pub insert_all-AreBest :
        (max_size : ℕ) (b : Beam A) (all : List A)
        → 0 < max_size
        → IsAllocated b.storage
        → AreBest blank less (λ (a c : A). a ≡ c) all (insert_all all (reset_beam blank max_size b))
    insert_all-AreBest max_size b all pos allocated = (run all).1
      where
        run :
            (all : List A)
            → IsSound (insert_all all (reset_beam blank max_size b))
              × AreBest blank less
                  (λ (a c : A). a ≡ c)
                  all
                  (insert_all all (reset_beam blank max_size b))
        run [] = (reset_beam-IsSound blank max_size b pos allocated, tt)
        run (a ∷ all) = let (sound, best) = run all in insert-AreBest a _ sound all best
