-- ===== src/Beam/All.antt =====
-- What an insertion keeps of all values of a beam, and of its size.
use native.Mathlib.Decide.{ℕ_discrete, dec_lt}
use memt.Prelude.{
  ℕ, ◌+◌, ◌≤◌, ◌<◌, ◌≡◌, ◌∙◌, refl, sym, subst, Bool, true, false, Option, none, some, List, ◌||◌,
  ◌∷◌, ◌==◌, arith, inl, inr, Bool-cases,
}
use memt.Beam.{
  Beam, Dupe, Storage, hash_dupe, in_use, value, keep, evict, place, merge_dupe, use_available,
  replace_available, build_dropper, insert, settle, reset_beam, reset_storage,
}
use memt.Beam.Written.{written, at_new, at_old}
use memt.Beam.Dupes.{find_equal-some}
use memt.Beam.Merging.{Laws}
use memt.Beam.Merging.Join.{at_joined}
use memt.Beam.Unique.{IsMerging, found, answered, insert-answered}

-- What `place` leaves of the storage.
module _ {ℓ} {A : Type ℓ} (blank : A) (less : A → A → Bool) (dupe : Dupe A)
    (merge : A → A → A × Bool) (bottom : List A → List ℕ → ℕ) (c : Beam A) where
  abbrev placed : Storage A
  placed = (place blank less dupe merge bottom c).storage

  -- The slot of the available value comes into use, or one goes out of it as well.
  abbrev IsPlaced : Storage A → Type ℓ
  IsPlaced s =
      (s.owner ≡ c.storage.owner)
      × (s.max_size ≡ c.storage.max_size)
      × (0 < s.max_size → 0 < s.size)
      × ((i : ℕ) → in_use s i ≡ true → (i == c.storage.available || in_use c.storage i) ≡ true)

  place-evict :
      (c.storage.size == c.storage.max_size) ≡ true
      → placed ≡ (evict blank less dupe merge bottom c).storage
  unfolding place
  place-evict e = rw (placed, e) refl

  place-keep :
      (c.storage.size == c.storage.max_size) ≡ false
      → placed ≡ (keep blank less dupe merge bottom c).storage
  unfolding place
  place-keep e = rw (placed, e) refl

  keep-use_available : (keep blank less dupe merge bottom c).storage ≡ use_available c.storage
  unfolding keep build_dropper use_available
  keep-use_available = elim (Bool-cases (c.storage.size + 1 == c.storage.max_size)) [
    | inl e ↦ rw e refl
    | inr e ↦ rw e refl
  ]

  pub place-IsPlaced :
      (c.storage.size < c.storage.max_size → c.storage.available ≡ c.storage.size)
      → c.storage.size ≤ c.storage.max_size
      → IsPlaced placed
  unfolding evict use_available replace_available
  place-IsPlaced filling room = elim (dec_lt c.storage.size c.storage.max_size) [
    | no h ↦
        subst IsPlaced (sym (place-evict (ground arith)))
          (refl, refl, λ pos. omega arith, λ i u. ground arith)
    | yes h ↦
        subst IsPlaced (sym (place-keep (ground arith) ∙ keep-use_available))
          (refl, refl, λ pos. omega arith, λ i u. ground (arith, filling h))
  ]

module _ {ℓ n} {A : Type ℓ} (blank : A) (Good : A → Type n) where
  -- The values in use are good.
  abbrev pub IsAll : Beam A → Type n
  IsAll b = (i : ℕ) → in_use b.storage i ≡ true → Good (value blank b.storage.owner i)

  pub reset_beam-IsAll : (max_size : ℕ) (b : Beam A) → IsAll (reset_beam blank max_size b)
  unfolding reset_beam reset_storage
  reset_beam-IsAll max_size b i u = absurd (ground arith)

  module _ (less equals : A → A → Bool) (merge : A → A → A × Bool) (bottom : List A → List ℕ → ℕ)
      (laws : Laws blank less equals merge bottom)
      (joins : (a b : A) → equals a b ≡ true → Good a → Good b → Good (merge a b).0) (a : A)
      (seen : List A) (b : Beam A) (k : IsMerging blank less equals merge bottom seen b) where
    abbrev after : Option ℕ → Beam A
    after = answered blank less equals merge bottom laws a seen b k

    module _ (good : Good a) (all : IsAll b) where
      written-Good :
          (i : ℕ)
          → (i == b.storage.available || in_use b.storage i) ≡ true
          → Good (value blank (written a b).storage.owner i)
      written-Good i u = elim (ℕ_discrete i b.storage.available) [
        | yes here ↦ rw (here, at_new blank a b k.sound) good
        | no there ↦
            let w : in_use b.storage i ≡ true = ground arith in
            rw (at_old blank a b k.sound i w) (all i w)
      ]

      after-none-IsAll : IsAll (after none)
      unfolding settle
      after-none-IsAll i u =
          let (owner, _, _, used) =
            place-IsPlaced blank less (hash_dupe blank equals) merge bottom
              (record (written a b) { known = b.storage.available ∷ b.known })
              (λ h. (k.sound.filling h).0) k.sound.room in
          subst (λ o. Good (value blank o i)) (sym owner) (written-Good i (used i u))

      after-some-IsAll :
          (j : ℕ)
          → found blank less equals merge bottom laws a seen b k ≡ some j
          → IsAll (after (some j))
      unfolding settle merge_dupe
      after-some-IsAll j e i u =
          let (q, same) = find_equal-some blank equals _ _ b.known j e in
          let v : in_use b.storage j ≡ true = sym (k.known.knows j) ∙ q in
          let new = at_new blank a b k.sound in
          let old = at_old blank a b k.sound j v in
          subst Good
            (sym (at_joined blank less equals merge bottom laws a b k.sound k.known j q same i u))
            (elim (Bool-cases (j == i)) [
              | inl here ↦ rw here (joins _ _ same (rw old (all j v)) (rw new good))
              | inr there ↦ rw there (all i u)
            ])

      after-IsAll :
          (f : Option ℕ)
          → found blank less equals merge bottom laws a seen b k ≡ f
          → IsAll (after f)
      after-IsAll none e = after-none-IsAll
      after-IsAll (some j) e = after-some-IsAll j e

      -- Good values stay good, where a merge gives good values of good ones.
      pub insert-IsAll : IsAll (insert blank less (hash_dupe blank equals) merge bottom a b)
      insert-IsAll =
          subst (λ b. IsAll b)
            (sym (insert-answered blank less equals merge bottom laws a seen b k))
            (after-IsAll _ refl)

module _ {ℓ} {A : Type ℓ} (blank : A) (less equals : A → A → Bool) (merge : A → A → A × Bool)
    (bottom : List A → List ℕ → ℕ) (laws : Laws blank less equals merge bottom) (a : A)
    (seen : List A) (b : Beam A) (k : IsMerging blank less equals merge bottom seen b) where
  abbrev IsGrown : Beam A → Type 0
  IsGrown c =
      (c.storage.max_size ≡ b.storage.max_size) × (0 < b.storage.max_size → 0 < c.storage.size)

  after-IsGrown :
      (f : Option ℕ)
      → found blank less equals merge bottom laws a seen b k ≡ f
      → IsGrown (answered blank less equals merge bottom laws a seen b k f)
  unfolding settle merge_dupe
  after-IsGrown none e =
      let (_, max, some_left, _) =
        place-IsPlaced blank less (hash_dupe blank equals) merge bottom
          (record (written a b) { known = b.storage.available ∷ b.known })
          (λ h. (k.sound.filling h).0) k.sound.room in
      (max, λ pos. some_left (omega arith))
  after-IsGrown (some j) e =
      let (q, same) = find_equal-some blank equals _ _ b.known j e in
      let v : in_use b.storage j ≡ true = sym (k.known.knows j) ∙ q in
      (
        refl,
        λ pos. elim (dec_lt b.storage.size b.storage.max_size) [
          | yes h ↦ ground (arith, (k.sound.filling h).0)
          | no h ↦ omega (arith, k.sound.room)
        ],
      )

  -- After an insertion a beam that has room for a value has one.
  pub insert-IsGrown : IsGrown (insert blank less (hash_dupe blank equals) merge bottom a b)
  insert-IsGrown =
      subst (λ b. IsGrown b) (sym (insert-answered blank less equals merge bottom laws a seen b k))
        (after-IsGrown _ refl)
