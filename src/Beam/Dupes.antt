-- ===== src/Beam/Dupes.antt =====
-- The hash set of the values that are known: it has the values in use, and no two of them are equal.
use native.Mathlib.Decide.{ℕ_discrete}
use mathlib.Core.Bool.{false≢true}
use mathlib.Core.Option.{some-injective, none-ne-some}
use memt.Prelude.{
  ℕ, ◌≡◌, ◌∙◌, refl, sym, ap, Bool, true, false, none, some, List, [], ◌∷◌, remove, queued,
  distinct, queued-remove, distinct-remove, arith, inl, inr, Bool-cases, ==_self, subst, not, ◌&&◌,
  ◌==◌,
}
use memt.Beam.{Beam, in_use, value, find_equal, erase_equal}
use memt.Beam.Sound.{queued-remove_other}

pub record IsEquivalence {ℓ} {A : Type ℓ} (equals : A → A → Bool) : Type ℓ where
  pub reflexive : (a : A) → equals a a ≡ true
  pub symmetric : (a b : A) → equals a b ≡ true → equals b a ≡ true
  pub transitive : (a b c : A) → equals a b ≡ true → equals b c ≡ true → equals a c ≡ true

module _ {ℓ} {A : Type ℓ} (blank : A) (equals : A → A → Bool) where
  -- Pointers whose values are equal are the same.
  abbrev pub AreApart : List A → List ℕ → Type 0
  AreApart owner known =
      (i j : ℕ)
      → queued i known ≡ true
      → queued j known ≡ true
      → equals (value blank owner i) (value blank owner j) ≡ true
      → i ≡ j

  -- The values that are known are those in use, each once, and no two of them are equal.
  pub record IsKnown (b : Beam A) : Type ℓ where
    pub knows : (i : ℕ) → queued i b.known ≡ in_use b.storage i
    pub once : distinct b.known ≡ true
    pub apart : AreApart b.storage.owner b.known

  pub find_equal-none :
      (owner : List A) (v : A) (known : List ℕ)
      → find_equal blank equals owner v known ≡ none
      → (i : ℕ) → queued i known ≡ true
      → equals (value blank owner i) v ≡ false
  unfolding find_equal queued
  find_equal-none owner v [] e i q = absurd (ground arith)
  find_equal-none owner v (j ∷ known) e i q =
      let rest = find_equal-none owner v known in
      elim (Bool-cases (equals (value blank owner j) v)) [
        | inl same ↦ absurd (none-ne-some j (sym e ∙ rw same refl))
        | inr other ↦
            let more = rest (rw other refl ∙ e) i in
            elim (ℕ_discrete i j) [ yes here ↦ rw here other | no there ↦ more (ground arith) ]
      ]

  pub find_equal-some :
      (owner : List A) (v : A) (known : List ℕ) (i : ℕ)
      → find_equal blank equals owner v known ≡ some i
      → (queued i known ≡ true) × (equals (value blank owner i) v ≡ true)
  unfolding find_equal queued
  find_equal-some owner v [] i e = absurd (none-ne-some i e)
  find_equal-some owner v (j ∷ known) i e =
      let rest = find_equal-some owner v known i in
      elim (Bool-cases (equals (value blank owner j) v)) [
        | inl same ↦
            let here : j ≡ i = some-injective j i (sym (rw same refl) ∙ e) in
            rw (sym here) (ground (arith, ==_self j), same)
        | inr other ↦ let (q, same) = rest (rw other refl ∙ e) in (ground arith, same)
      ]

  pub erase_equal-remove :
      IsEquivalence equals
      → (owner : List A) (known : List ℕ) (r : ℕ) → queued r known ≡ true
      → AreApart owner known
      → erase_equal blank equals owner (value blank owner r) known ≡ remove r known
  unfolding erase_equal queued remove
  erase_equal-remove law owner [] r q apart = refl
  erase_equal-remove law owner (j ∷ known) r q apart =
      let rest = erase_equal-remove law owner known r in
      elim (ℕ_discrete r j) [
        | yes here ↦ rw (here, law.reflexive (value blank owner j), ==_self j) refl
        | no there ↦
            let other : equals (value blank owner j) (value blank owner r) ≡ false =
              elim (Bool-cases (equals (value blank owner j) (value blank owner r))) [
                | inl same ↦ absurd (there (sym (apart j r (ground (arith, ==_self j)) q same)))
                | inr other ↦ other
              ] in
            let later : (r == j) ≡ false = ground arith in
            rw (other, later)
              (ap (λ known. j ∷ known)
                (rest (ground arith)
                  (λ i k p p' same. apart i k (ground arith) (ground arith) same)))
      ]

  module _ (law : IsEquivalence equals) where
    -- Values that change to equal ones stay apart.
    pub AreApart-alike :
        (owner owner' : List A) (known : List ℕ)
        → ((i : ℕ)
            → queued i known ≡ true
            → equals (value blank owner i) (value blank owner' i) ≡ true)
        → AreApart owner known
        → AreApart owner' known
    AreApart-alike owner owner' known alike apart i j p q e = apart i j p q (
        law.transitive _ (value blank owner' i) _ (alike i p)
          (law.transitive _ (value blank owner' j) _ e (law.symmetric _ _ (alike j q))))

    -- One more value that equals none of them.
    pub AreApart-add :
        (owner : List A) (known : List ℕ) (k : ℕ)
        → ((i : ℕ)
            → queued i known ≡ true
            → equals (value blank owner i) (value blank owner k) ≡ false)
        → AreApart owner known
        → AreApart owner (k ∷ known)
    unfolding queued
    AreApart-add owner known k other apart i j p q e = elim (ℕ_discrete i k) [
      | yes here ↦ elim (ℕ_discrete j k) [
        | yes too ↦ here ∙ sym too
        | no there ↦ absurd (
            false≢true (
              sym (other j (ground arith))
              ∙ law.symmetric _ _
                  (subst (λ i. equals (value blank owner i) (value blank owner j) ≡ true) here e)))
      ]
      | no there ↦ elim (ℕ_discrete j k) [
        | yes too ↦ absurd (
            false≢true (
              sym (other i (ground arith))
              ∙ subst (λ j. equals (value blank owner i) (value blank owner j) ≡ true) too e))
        | no either ↦ apart i j (ground arith) (ground arith) e
      ]
    ]

    -- What is left when one value is forgotten.
    pub erase_equal-AreApart :
        (owner : List A) (known : List ℕ) (r : ℕ)
        → queued r known ≡ true
        → distinct known ≡ true
        → AreApart owner known
        → let rest = erase_equal blank equals owner (value blank owner r) known in
          ((i : ℕ) → queued i rest ≡ queued i known && not (i == r))
          × (distinct rest ≡ true)
          × AreApart owner rest
    erase_equal-AreApart owner known r q once apart =
        rw (erase_equal-remove law owner known r q apart) (
          λ i. elim (ℕ_discrete i r) [
            | yes here ↦ rw here (ground (arith, (distinct-remove r known once).1, ==_self r))
            | no there ↦ ground (arith, queued-remove_other i r known there)
          ],
          (distinct-remove r known once).0,
          λ i j p p' same. apart i j (queued-remove r i known p) (queued-remove r j known p') same,
        )
