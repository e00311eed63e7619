-- ===== src/Beam/Begin.antt =====
-- The set of a SetDropper yields a lowest value.
use native.Mathlib.Decide.{ℕ_discrete}
use mathlib.Core.Bool.{false≢true}
use memt.Prelude.{
  ℕ, ◌≡◌, refl, Bool, true, false, List, [], ◌∷◌, if◌then◌else◌, queued, arith, Bool-cases, ==_self,
  inl, inr,
}
use memt.Beam.{value, full_less, set_begin}
use memt.Beam.Sound.{IsBottom}

-- A strict weak order.
pub record IsOrder {ℓ} {A : Type ℓ} (less : A → A → Bool) : Type ℓ where
  pub irreflexive : (a : A) → less a a ≡ false
  pub asymmetric : (a b : A) → less a b ≡ true → less b a ≡ false
  pub through : (a b c : A) → less a b ≡ false → less b c ≡ false → less a c ≡ false

module _ {ℓ} {A : Type ℓ} (blank : A) (less : A → A → Bool) (order : IsOrder less) where
  full_less-true :
      (owner : List A) (i k : ℕ)
      → full_less blank less owner i k ≡ true
      → less (value blank owner k) (value blank owner i) ≡ false
  unfolding full_less
  full_less-true owner i k h =
      elim (Bool-cases (less (value blank owner i) (value blank owner k))) [
        | inl below ↦ order.asymmetric _ _ below
        | inr not_below ↦ ground arith
      ]

  full_less-false :
      (owner : List A) (i k : ℕ)
      → full_less blank less owner i k ≡ false
      → less (value blank owner i) (value blank owner k) ≡ false
  unfolding full_less
  full_less-false owner i k h = ground arith

  lower :
      (owner : List A) (c : Bool) (i k : ℕ) (q : List ℕ)
      → full_less blank less owner i k ≡ c
      → queued k q ≡ true
      → ((x : ℕ) → queued x q ≡ true → less (value blank owner x) (value blank owner k) ≡ false)
      → (x : ℕ) → queued x (i ∷ q) ≡ true
      → (queued (if c then i else k) (i ∷ q) ≡ true)
        × (less (value blank owner x) (value blank owner (if c then i else k)) ≡ false)
  unfolding queued
  lower owner true i k q e s t x r = elim (ℕ_discrete x i) [
    | yes same ↦ rw same (ground (arith, ==_self i), order.irreflexive _)
    | no other ↦ (
      ground (arith, ==_self i),
      order.through _ (value blank owner k) _ (t x (ground arith)) (full_less-true owner i k e),
    )
  ]
  lower owner false i k q e s t x r = elim (ℕ_discrete x i) [
    | yes same ↦ rw same (ground arith, full_less-false owner i k e)
    | no other ↦ (ground arith, t x (ground arith))
  ]

  -- For a strict weak order, what the set of a SetDropper has first is in it, and no other value of it
  -- is lower.
  pub set_begin-IsBottom : IsBottom blank less (set_begin blank less)
  unfolding set_begin queued
  set_begin-IsBottom owner [] x r = absurd (false≢true r)
  set_begin-IsBottom owner (i ∷ []) x r = elim (ℕ_discrete x i) [
    | yes same ↦ rw same (ground (arith, ==_self i), order.irreflexive _)
    | no other ↦ absurd (ground arith)
  ]
  set_begin-IsBottom owner (i ∷ j ∷ q) x r =
      let tail = set_begin-IsBottom owner (j ∷ q) in
      lower owner _ i (set_begin blank less owner (j ∷ q)) (j ∷ q) refl
        (tail j (ground (arith, ==_self j))).0 (λ y u. (tail y u).1) x r
