-- ===== src/Beam/Spare.antt =====
-- What holds of all values in the array of a beam, those that are not in use included.
use memt.Prelude.{
  ℕ, zero, suc, ◌+◌, ◌≡◌, ◌∙◌, refl, sym, subst, Bool, true, Option, none, some, List, [], ◌∷◌,
  ◌==◌, inl, inr, Bool-cases, set, get_or, replicate, ◌⊎◌,
}
use memt.Beam.{
  Beam, in_use, hash_dupe, value, merge_dupe, insert, settle, reset_beam, reset_storage,
}
use memt.Beam.Written.{written, at_old, at_new}
use memt.Beam.Dupes.{find_equal-some}
use memt.Beam.Merging.{Laws}
use memt.Beam.All.{IsAll, place-IsPlaced}
use memt.Beam.Unique.{IsMerging, found, answered, insert-answered}

get_or-set_either {ℓ} :
    {A : Type ℓ} (xs : List A) (i j : ℕ) (a d : A)
    → (get_or (set xs i a) j d ≡ a) ⊎ (get_or (set xs i a) j d ≡ get_or xs j d)
get_or-set_either [] i j a d = inr refl
get_or-set_either (x ∷ xs) zero zero a d = inl refl
get_or-set_either (x ∷ xs) zero (suc j) a d = inr refl
get_or-set_either (x ∷ xs) (suc i) zero a d = inr refl
get_or-set_either (x ∷ xs) (suc i) (suc j) a d = get_or-set_either xs i j a d

module _ {ℓ n} {A : Type ℓ} (blank : A) (Spare : A → Type n) where
  abbrev pub AreSpare : List A → Type n
  AreSpare owner = (i : ℕ) → Spare (value blank owner i)

  pub set-AreSpare :
      (owner : List A) (i : ℕ) (a : A) → Spare a → AreSpare owner → AreSpare (set owner i a)
  set-AreSpare owner i a s all j = elim (get_or-set_either owner i j a blank) [
    | inl e ↦ subst Spare (sym e) s
    | inr e ↦ subst Spare (sym e) (all j)
  ]

  replicate-AreSpare : (size : ℕ) → Spare blank → AreSpare (replicate size blank)
  replicate-AreSpare zero s i = s
  replicate-AreSpare (suc size) s zero = s
  replicate-AreSpare (suc size) s (suc i) = replicate-AreSpare size s i

  pub reset_beam-AreSpare :
      (max_size : ℕ) (b : Beam A)
      → Spare blank
      → AreSpare b.storage.owner
      → AreSpare (reset_beam blank max_size b).storage.owner
  unfolding reset_beam reset_storage
  reset_beam-AreSpare max_size b s all = elim (Bool-cases (b.storage.max_size == max_size)) [
    | inl e ↦ subst AreSpare (sym (rw e refl)) all
    | inr e ↦ subst AreSpare (sym (rw e refl)) (replicate-AreSpare (max_size + 1) s)
  ]

  module _ (less equals : A → A → Bool) (merge : A → A → A × Bool) (bottom : List A → List ℕ → ℕ)
      (laws : Laws blank less equals merge bottom) (a : A) (seen : List A) (b : Beam A)
      (k : IsMerging blank less equals merge bottom seen b) where
    abbrev found_in : Option ℕ
    found_in = found blank less equals merge bottom laws a seen b k

    -- The value that a duplicate at the slot becomes.
    abbrev pub merged_at : ℕ → A
    merged_at i =
        (merge (value blank (written a b).storage.owner i)
          (value blank (written a b).storage.owner b.storage.available)).0

    answered-AreSpare :
        (f : Option ℕ)
        → found_in ≡ f
        → ((i : ℕ) → found_in ≡ some i → Spare (merged_at i))
        → Spare a
        → AreSpare b.storage.owner
        → AreSpare (answered blank less equals merge bottom laws a seen b k f).storage.owner
    unfolding settle merge_dupe
    answered-AreSpare none e merged s all =
        let (owner, _, _, _) =
          place-IsPlaced blank less (hash_dupe blank equals) merge bottom
            (record (written a b) { known = b.storage.available ∷ b.known })
            (λ h. (k.sound.filling h).0) k.sound.room in
        subst AreSpare (sym owner) (set-AreSpare b.storage.owner b.storage.available a s all)
    answered-AreSpare (some i) e merged s all =
        set-AreSpare (written a b).storage.owner i (merged_at i) (merged i e)
          (set-AreSpare b.storage.owner b.storage.available a s all)

    pub insert-AreSpare :
        ((i : ℕ) → found_in ≡ some i → Spare (merged_at i))
        → Spare a
        → AreSpare b.storage.owner
        → AreSpare (insert blank less (hash_dupe blank equals) merge bottom a b).storage.owner
    insert-AreSpare merged s all =
        subst (λ (c : Beam A). AreSpare c.storage.owner)
          (sym (insert-answered blank less equals merge bottom laws a seen b k))
          (answered-AreSpare _ refl merged s all)

    -- A merge of good values is good.
    pub merged_at-Good {q} :
        (Good : A → Type q)
        → ((x y : A) → equals x y ≡ true → Good x → Good y → Good (merge x y).0)
        → Good a
        → IsAll blank Good b
        → (i : ℕ) → found_in ≡ some i
        → Good (merged_at i)
    merged_at-Good Good joins good all i e =
        let (p, same) = find_equal-some blank equals _ _ b.known i e in
        let v : in_use b.storage i ≡ true = sym (k.known.knows i) ∙ p in
        joins _ _ same (rw (at_old blank a b k.sound i v) (all i v))
          (rw (at_new blank a b k.sound) good)
