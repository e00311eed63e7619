-- ===== src/Beam.antt =====
-- util/n_best.hh: the beams that keep the best values, with duplicates merged. A pointer into the
-- array that owns the values is its index. The heap of a HeapDropper and the set of a SetDropper are
-- the list of the pointers in it; `bottom` chooses a lowest value, among several of them any.
pub mod Sound
pub mod Written
pub mod Dupes
pub mod Merging
pub mod Unique
pub mod All
pub mod Keeps
pub mod Spare
pub mod Best
pub mod Order
pub mod Begin
mod Tests
use memt.Prelude.{
  ℕ, zero, suc, ◌+◌, ◌≡◌, Bool, true, false, not, ◌&&◌, ◌||◌, Option, none, some, List, [], ◌∷◌,
  ltb, leb, ◌==◌, if◌then◌else◌, get_or, set, replicate, remove, map,
}

-- ArrayStorage
pub record Storage {ℓ} (A : Type ℓ) : Type ℓ where
  pub max_size : ℕ
  pub size : ℕ
  pub owner : List A
  pub available : ℕ

-- Reset: one value more than the beam holds, so that there always is one available.
unfoldable pub reset_storage {ℓ} : {A : Type ℓ} → A → ℕ → Storage A → Storage A
reset_storage blank max_size s = record {
  max_size = max_size;
  size = 0;
  owner = if s.max_size == max_size then s.owner else replicate (max_size + 1) blank;
  available = 0;
}

unfoldable pub use_available {ℓ} : {A : Type ℓ} → Storage A → Storage A
use_available s = record s { size = s.size + 1; available = s.available + 1 }

unfoldable pub replace_available {ℓ} : {A : Type ℓ} → ℕ → Storage A → Storage A
replace_available with_pointer s = record s { available = with_pointer }

-- What begin() to end() go through: all slots up to the size, but the one that is available.
abbrev pub in_use {ℓ} : {A : Type ℓ} → Storage A → ℕ → Bool
in_use s i = leb i s.size && not (i == s.available)

abbrev pub slots_from : ℕ → ℕ → ℕ → List ℕ
slots_from zero i skip = []
slots_from (suc rounds) i skip =
    if i == skip then slots_from rounds (suc i) skip else i ∷ slots_from rounds (suc i) skip

abbrev pub slots {ℓ} : {A : Type ℓ} → Storage A → List ℕ
slots s = slots_from (s.size + 1) 0 s.available

-- The interface of duplicate detectors: FindOrInsert and Remove, on the pointers that are known.
pub record Dupe {ℓ} (A : Type ℓ) : Type ℓ where
  pub find_or_insert : List A → ℕ → List ℕ → Option ℕ × List ℕ
  pub forget : List A → ℕ → List ℕ → List ℕ

-- NullDupeImpl
abbrev pub null_dupe {ℓ} : {A : Type ℓ} → Dupe A
null_dupe = record {
  find_or_insert = λ owner pointer known. (none, known);
  forget = λ owner pointer known. known;
}

module _ {ℓ} {A : Type ℓ} (blank : A) where
  -- *pointer
  abbrev pub value : List A → ℕ → A
  value owner pointer = get_or owner pointer blank

  unfoldable pub find_equal : (A → A → Bool) → List A → A → List ℕ → Option ℕ
  find_equal equals owner v [] = none
  find_equal equals owner v (i ∷ known) =
      if equals (value owner i) v then some i else find_equal equals owner v known

  -- unordered_set::erase, which takes out an equal value
  unfoldable pub erase_equal : (A → A → Bool) → List A → A → List ℕ → List ℕ
  erase_equal equals owner v [] = []
  erase_equal equals owner v (i ∷ known) =
      if equals (value owner i) v then known else i ∷ erase_equal equals owner v known

  -- HashDupeImpl, of the values that `equals` finds equal, with a hash that respects it.
  unfoldable pub hash_dupe : (A → A → Bool) → Dupe A
  unfolding find_equal erase_equal
  hash_dupe equals = record {
    find_or_insert = λ owner pointer known.
        elim (find_equal equals owner (value owner pointer) known) [
          | none ↦ (none, pointer ∷ known)
          | some dupe ↦ (some dupe, known)
        ];
    forget = λ owner pointer known. erase_equal equals owner (value owner pointer) known;
  }

-- OneBestMerge, NullMerge: the merged value, and whether its score may have changed.
unfoldable pub one_best_merge {ℓ} : {A : Type ℓ} → (A → A → Bool) → A → A → A × Bool
one_best_merge less to with_value = if less to with_value then (with_value, true) else (to, false)

abbrev pub null_merge {ℓ} : {A : Type ℓ} → A → A → A × Bool
null_merge to with_value = (to, false)

-- FullLess of a SetDropper: equal scores are told apart by their pointers.
unfoldable pub full_less {ℓ} : {A : Type ℓ} → A → (A → A → Bool) → List A → ℕ → ℕ → Bool
full_less blank less owner left right =
    if less (value blank owner left) (value blank owner right)
    then true
    else if less (value blank owner right) (value blank owner left)
    then false
    else ltb left right

-- set_.begin()
unfoldable pub set_begin {ℓ} : {A : Type ℓ} → A → (A → A → Bool) → List A → List ℕ → ℕ
set_begin blank less owner [] = 0
set_begin blank less owner (i ∷ []) = i
set_begin blank less owner (i ∷ j ∷ q) =
    let k = set_begin blank less owner (j ∷ q) in if full_less blank less owner i k then i else k

-- OpenNBest with its storage. The dropper is built when the beam is filled.
pub record Beam {ℓ} (A : Type ℓ) : Type ℓ where
  pub storage : Storage A
  pub dropper : Option (List ℕ)
  pub known : List ℕ

-- Reset
unfoldable pub reset_beam {ℓ} : {A : Type ℓ} → A → ℕ → Beam A → Beam A
reset_beam blank max_size b = record {
  storage = reset_storage blank max_size b.storage;
  dropper = none;
  known = [];
}

abbrev pub is_full {ℓ} : {A : Type ℓ} → Storage A → Bool
is_full s = s.size == s.max_size

-- The pointers in the dropper, if it is built.
abbrev pub dropped : Option (List ℕ) → List ℕ
dropped none = []
dropped (some q) = q

module _ {ℓ} {A : Type ℓ} (blank : A) (less : A → A → Bool) (dupe : Dupe A)
    (merge : A → A → A × Bool) (bottom : List A → List ℕ → ℕ) where
  -- BuildDropper
  unfoldable pub build_dropper : Beam A → Beam A
  build_dropper b = record b {
    dropper = elim b.dropper [ none ↦ some (slots b.storage) | some q ↦ some q ];
  }

  -- MayMakeIt
  unfoldable pub may_make_it : Beam A → A → Bool
  may_make_it b score =
      ltb b.storage.size b.storage.max_size
      || less (value blank b.storage.owner (bottom b.storage.owner (dropped b.dropper))) score

  -- A duplicate takes the available value in. In a full beam it leaves the dropper for that time.
  unfoldable pub merge_dupe : ℕ → Beam A → Beam A
  merge_dupe i b =
      let s = b.storage in
      let merged = (merge (value blank s.owner i) (value blank s.owner s.available)).0 in
      record b {
        storage = record s { owner = set s.owner i merged };
        dropper = if is_full s then some (i ∷ remove i (dropped b.dropper)) else b.dropper;
      }

  -- In a full beam the available value goes into the dropper, and the lowest value comes out.
  unfoldable pub evict : Beam A → Beam A
  evict b =
      let s = b.storage in
      let q = s.available ∷ dropped b.dropper in
      let removing = bottom s.owner q in
      record {
        storage = replace_available removing s;
        dropper = some (remove removing q);
        known = dupe.forget s.owner removing b.known;
      }

  -- In a beam with room it is kept.
  unfoldable pub keep : Beam A → Beam A
  keep b =
      let kept = record b { storage = use_available b.storage } in
      if is_full kept.storage then build_dropper kept else kept

  unfoldable pub place : Beam A → Beam A
  unfolding evict keep
  place b = if is_full b.storage then evict b else keep b

  -- What becomes of the available value, by what the duplicate detector answers.
  unfoldable pub settle : Option ℕ × List ℕ → Beam A → Beam A
  unfolding merge_dupe place
  settle (none, known) b = place (record b { known = known })
  settle (some i, known) b = merge_dupe i (record b { known = known })

  -- InsertAvailable
  unfoldable pub insert_available : Beam A → Beam A
  unfolding settle
  insert_available b = settle (dupe.find_or_insert b.storage.owner b.storage.available b.known) b

  -- What a caller does: write Available(), then InsertAvailable().
  unfoldable pub insert : A → Beam A → Beam A
  insert v b = insert_available (record b {
    storage = record b.storage { owner = set b.storage.owner b.storage.available v };
  })

  -- DestructiveIncreasingVector: so many pops of the lowest value, with what is left in the dropper.
  unfoldable pub pop_all : ℕ → List A → List ℕ → List ℕ
  pop_all zero owner q = []
  pop_all (suc n) owner q = bottom owner q ∷ pop_all n owner (remove (bottom owner q) q)

  unfoldable pub destructive_increasing_vector : Beam A → List A
  unfolding pop_all
  destructive_increasing_vector b =
      map (value blank b.storage.owner)
        (pop_all b.storage.size b.storage.owner (dropped (build_dropper b).dropper))
