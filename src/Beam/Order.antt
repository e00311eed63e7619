-- ===== src/Beam/Order.antt =====
-- What a beam answers of its order: MayMakeIt, and the sorted values.
use native.Mathlib.Decide.{ℕ_discrete, dec_lt}
use memt.Prelude.{
  ℕ, zero, suc, ◌+◌, ◌<◌, ◌≡◌, ◌↔◌, ◌∙◌, refl, sym, ap, Bool, true, false, ◌||◌, Option, none, some,
  List, [], ◌∷◌, map, ◌==◌, length, remove, queued, distinct, queued-remove, queued_again,
  distinct-remove, length-remove, arith, ==_self,
}
use memt.Beam.{
  Beam, Dupe, in_use, slots, value, dropped, build_dropper, may_make_it, pop_all,
  destructive_increasing_vector,
}
use memt.Beam.Sound.{IsSound, IsBottom, queued-slots_from, distinct-slots_from, length-slots_from}
use memt.Beam.Best.{IsBeaten}

module _ {ℓ} {A : Type ℓ} (blank : A) (less : A → A → Bool) where
  -- No later value is below an earlier one.
  abbrev pub IsIncreasing : List A → List ℕ → Type 0
  IsIncreasing owner [] = Unit {0}
  IsIncreasing owner (i ∷ q) =
      ((j : ℕ) → queued j q ≡ true → less (value blank owner j) (value blank owner i) ≡ false)
      × IsIncreasing owner q

module _ {ℓ} {A : Type ℓ} (blank : A) (less : A → A → Bool) (dupe : Dupe A)
    (merge : A → A → A × Bool) (bottom : List A → List ℕ → ℕ)
    (is_bottom : IsBottom blank less bottom) where
  pop_all-IsIncreasing :
      (owner : List A) (n : ℕ) (q : List ℕ)
      → length q ≡ n
      → distinct q ≡ true
      → ((j : ℕ) → queued j (pop_all blank less dupe merge bottom n owner q) ≡ queued j q)
        × IsIncreasing blank less owner (pop_all blank less dupe merge bottom n owner q)
        × (length (pop_all blank less dupe merge bottom n owner q) ≡ n)
  unfolding pop_all queued
  pop_all-IsIncreasing owner zero [] e d = (λ j. refl, tt, refl)
  pop_all-IsIncreasing owner zero (i ∷ q) e d = absurd (omega arith)
  pop_all-IsIncreasing owner (suc n) [] e d = absurd (omega arith)
  pop_all-IsIncreasing owner (suc n) (i ∷ q) e d =
      let k = bottom owner (i ∷ q) in
      let at = (is_bottom owner (i ∷ q) i (ground (arith, ==_self i))).0 in
      let rest = remove k (i ∷ q) in
      let (same, increasing, long) =
        pop_all-IsIncreasing owner n rest (omega (arith, length-remove k (i ∷ q) at))
          (distinct-remove k (i ∷ q) d).0 in
      (
        λ j. ap (λ r. j == k || r) (same j) ∙ queued_again k j (i ∷ q) at,
        (
          λ j u. (is_bottom owner (i ∷ q) j (queued-remove k j (i ∷ q) (sym (same j) ∙ u))).1,
          increasing,
        ),
        omega arith,
      )

  some_slot :
      (b : Beam A)
      → IsSound b
      → b.storage.size ≡ b.storage.max_size
      → 0 < b.storage.max_size
      → (i : ℕ) × (queued i (dropped b.dropper) ≡ true)
  some_slot b v e pos =
      let f = (v.full e).1 in
      elim (ℕ_discrete b.storage.available 0) [
        | yes first ↦ (1, f.has 1 ∙ ground arith)
        | no later ↦ (0, f.has 0 ∙ ground arith)
      ]

  -- MayMakeIt says no exactly if the beam is full and no value in it is below the given one. The order
  -- is one in which "not below" is transitive, the dropper yields a lowest value, and the beam is sound
  -- and has a size of at least one.
  pub may_make_it_iff :
      ((a b c : A) → less a b ≡ false → less b c ≡ false → less a c ≡ false)
      → (b : Beam A) (a : A) → IsSound b
      → 0 < b.storage.max_size
      → (may_make_it blank less dupe merge bottom b a ≡ false) ↔ IsBeaten blank less a b
  unfolding may_make_it
  may_make_it_iff through b a v pos = elim (dec_lt b.storage.size b.storage.max_size) [
    | yes h ↦ (λ no. absurd (ground arith), λ beaten. absurd (omega (arith, beaten.0)))
    | no h ↦
        let e : b.storage.size ≡ b.storage.max_size = omega (arith, v.room) in
        let f = (v.full e).1 in
        let q = dropped b.dropper in
        let k = bottom b.storage.owner q in
        let (first, some_queued) = some_slot b v e pos in
        let at : queued k q ≡ true = (is_bottom b.storage.owner q first some_queued).0 in
        (
          λ no. (
            e,
            λ i u.
                through (value blank b.storage.owner i) (value blank b.storage.owner k) a
                  (is_bottom b.storage.owner q i (f.has i ∙ u)).1 (ground arith),
          ),
          λ beaten. ground (arith, beaten.1 k (sym (f.has k) ∙ at)),
        )
  ]

  dropped-built :
      (d : Option (List ℕ)) (s q : List ℕ)
      → d ≡ some q
      → dropped (elim d [ none ↦ some s | some q ↦ some q ]) ≡ q
  dropped-built d s q e = rw e refl

  -- The dropper that is built has the slots in use, each once.
  abbrev IsBuilt : Beam A → List ℕ → Type 0
  IsBuilt b q =
      (length q ≡ b.storage.size)
      × (distinct q ≡ true)
      × ((i : ℕ) → queued i q ≡ in_use b.storage i)

  build_dropper-IsBuilt :
      (b : Beam A)
      → IsSound b
      → (q : List ℕ) × (dropped (build_dropper blank less dupe merge bottom b).dropper ≡ q)
        × IsBuilt b q
  unfolding build_dropper
  build_dropper-IsBuilt b v = elim (dec_lt b.storage.size b.storage.max_size) [
    | yes h ↦
        let n = b.storage.size + 1 in
        let skip = b.storage.available in
        (
          slots b.storage,
          rw (v.filling h).1 refl,
          (
            omega (
              arith,
              v.filling h,
              length-slots_from n 0 skip (omega arith) (omega (arith, v.filling h)),
            ),
            distinct-slots_from n 0 skip,
            λ i. ground (arith, queued-slots_from n 0 skip i),
          ),
        )
    | no h ↦
        let full = v.full (omega (arith, v.room)) in
        (
          dropped b.dropper,
          dropped-built b.dropper (slots b.storage) (dropped b.dropper) full.0,
          (full.1.many, full.1.once, full.1.has),
        )
  ]

  -- DestructiveIncreasingVector yields the values of the slots in use, each slot once, so many as the
  -- size says, and no later value is below an earlier one, where the beam is sound and the dropper yields
  -- a lowest value.
  pub destructive_increasing_vector-IsIncreasing :
      (b : Beam A)
      → IsSound b
      → (q : List ℕ) × (destructive_increasing_vector blank less dupe merge bottom b
          ≡ map (value blank b.storage.owner) q)
        × (length q ≡ b.storage.size)
        × ((i : ℕ) → queued i q ≡ in_use b.storage i)
        × IsIncreasing blank less b.storage.owner q
  unfolding destructive_increasing_vector
  destructive_increasing_vector-IsIncreasing b v =
      let (q, e, (long, once, has)) = build_dropper-IsBuilt b v in
      let (same, increasing, all) =
        pop_all-IsIncreasing b.storage.owner b.storage.size q long once in
      (
        pop_all blank less dupe merge bottom b.storage.size b.storage.owner q,
        ap
            (λ q.
              map (value blank b.storage.owner)
                (pop_all blank less dupe merge bottom b.storage.size b.storage.owner q))
            e,
        all,
        λ i. same i ∙ has i,
        increasing,
      )
