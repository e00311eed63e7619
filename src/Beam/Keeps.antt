-- ===== src/Beam/Keeps.antt =====
-- A beam that merges duplicates and has only good values, kept so by what its users do with it.
use native.Mathlib.Decide.{ℕ_discrete}
use memt.Prelude.{
  ℕ, ◌<◌, ◌≡◌, ◌∙◌, refl, sym, subst, Bool, true, List, [], ◌∷◌, map, queued, arith, ==_self,
}
use memt.Beam.{
  Beam, hash_dupe, in_use, value, insert, reset_beam, reset_storage, destructive_increasing_vector,
}
use memt.Beam.Sound.{IsAllocated}
use memt.Beam.Order.{destructive_increasing_vector-IsIncreasing}
use memt.Beam.Written.{written, written-IsSound, at_old}
use memt.Beam.Merging.{Laws, written-AreApart}
use memt.Beam.Unique.{IsMerging, insert-IsMerging, reset_beam-IsMerging}
use memt.Beam.All.{IsAll, insert-IsAll, insert-IsGrown, reset_beam-IsAll}

-- Each value of a list is good.
abbrev pub Each {ℓ n} : {A : Type ℓ} → (A → Type n) → List A → Type n
Each Good [] = Unit {n}
Each Good (a ∷ rest) = Good a × Each Good rest

pub Each-map {ℓ n} :
    {A : Type ℓ} (Good : A → Type n) (f : ℕ → A) (q : List ℕ)
    → ((i : ℕ) → queued i q ≡ true → Good (f i))
    → Each Good (map f q)
unfolding queued
Each-map Good f [] h = tt
Each-map Good f (i ∷ q) h =
    (h i (ground (arith, ==_self i)), Each-map Good f q (λ j e. h j (ground arith)))

-- A beam with a size has a slot in use.
pub some_in_use {ℓ} :
    {A : Type ℓ} (b : Beam A) → 0 < b.storage.size → (i : ℕ) × (in_use b.storage i ≡ true)
some_in_use b pos = elim (ℕ_discrete b.storage.available 0) [
  | yes first ↦ (1, ground arith)
  | no later ↦ (0, ground arith)
]

module _ {ℓ n} {A : Type ℓ} (blank : A) (less equals : A → A → Bool) (merge : A → A → A × Bool)
    (bottom : List A → List ℕ → ℕ) (Good : A → Type n) (max_size : ℕ) where
  pub record IsGood (b : Beam A) : Type (ℓ ⊔ n) where
    pub merging : IsMerging blank less equals merge bottom [] b
    pub all : IsAll blank Good b
    pub wide : b.storage.max_size ≡ max_size

  module _ (laws : Laws blank less equals merge bottom) where
    pub reset_beam-IsGood :
        (b : Beam A) → 0 < max_size → IsAllocated b.storage → IsGood (reset_beam blank max_size b)
    unfolding reset_beam reset_storage
    reset_beam-IsGood b pos allocated = record {
      merging = reset_beam-IsMerging blank less equals merge bottom laws max_size b pos allocated;
      all = reset_beam-IsAll blank Good max_size b;
      wide = refl;
    }

    pub written-IsGood : (a : A) (b : Beam A) → IsGood b → IsGood (written a b)
    written-IsGood a b g =
        let k = g.merging.known in
        record {
          merging = record {
            sound = written-IsSound blank a b g.merging.sound;
            known = record {
              knows = k.knows;
              once = k.once;
              apart = written-AreApart blank less equals merge bottom laws a b g.merging.sound k;
            };
            best = tt;
          };
          all = λ i u. subst Good (sym (at_old blank a b g.merging.sound i u)) (g.all i u);
          wide = g.wide;
        }

    module _ (joins : (a b : A) → equals a b ≡ true → Good a → Good b → Good (merge a b).0) where
      pub insert-IsGood :
          (a : A) (b : Beam A)
          → Good a
          → IsGood b
          → IsGood (insert blank less (hash_dupe blank equals) merge bottom a b)
      insert-IsGood a b good g =
          let k = insert-IsMerging blank less equals merge bottom laws a [] b g.merging in
          record {
            merging = record { sound = k.sound; known = k.known; best = tt };
            all =
                insert-IsAll blank Good less equals merge bottom laws joins a [] b g.merging good
                  g.all;
            wide = (insert-IsGrown blank less equals merge bottom laws a [] b g.merging).0 ∙ g.wide;
          }

      pub insert-size :
          (a : A) (b : Beam A)
          → IsGood b
          → 0 < max_size
          → 0 < (insert blank less (hash_dupe blank equals) merge bottom a b).storage.size
      insert-size a b g pos =
          (insert-IsGrown blank less equals merge bottom laws a [] b g.merging).1
            (omega (arith, g.wide))

    -- The values in increasing order are good.
    pub destructive_increasing_vector-Each :
        (b : Beam A)
        → IsGood b
        → Each Good
            (destructive_increasing_vector blank less (hash_dupe blank equals) merge bottom b)
    destructive_increasing_vector-Each b g =
        let (q, e, long, has, _) =
          destructive_increasing_vector-IsIncreasing blank less (hash_dupe blank equals) merge
            bottom laws.is_bottom b g.merging.sound in
        subst (Each Good) (sym e)
          (Each-map Good (value blank b.storage.owner) q (λ i p. g.all i (sym (has i) ∙ p)))
