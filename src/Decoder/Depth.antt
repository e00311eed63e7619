-- ===== src/Decoder/Depth.antt =====
-- The length of the paths in the lattice of histories. Each way from a history to the beginning of the
-- sentence has so many words.
use mathlib.Core.Bool.{false≢true}
use memt.Decoder.Score.{Doubles}
use memt.Prelude.{some, ℕ, zero, suc, ◌≡◌, refl, Bool, true, false, ◌&&◌, List, [], ◌∷◌, arith}
use memt.Beam.Keeps.{Each}
use memt.Decoder.History.{
  History, Histories, HistoryEntry, node, no_more, before, previous_of, first_of, with_entry,
  with_previous, make_hash, from_list,
}

unfoldable pub has_some {ℓ} : {D : Type ℓ} → Histories D → Bool
has_some no_more = false
has_some (before h rest) = true

unfoldable mutual
  pub is_deep {ℓ} : {D : Type ℓ} → History D → ℕ → Bool
  is_deep (node entry no_more hash) (suc zero) = true
  is_deep (node entry (before h rest) hash) (suc (suc n)) =
      is_deep h (suc n) && each_deep rest (suc n)
  is_deep _ _ = false

  pub each_deep {ℓ} : {D : Type ℓ} → Histories D → ℕ → Bool
  each_deep no_more n = true
  each_deep (before h rest) n = is_deep h n && each_deep rest n

module _ {ℓ} {D : Type ℓ} where
  pub is_deep-root : (h : History D) → is_deep h 1 ≡ true → previous_of h ≡ no_more
  unfolding is_deep
  is_deep-root (node entry no_more hash) d = refl
  is_deep-root (node entry (before h rest) hash) d = absurd (false≢true d)

  pub is_deep-zero : (h : History D) → is_deep h 0 ≡ true → ⊥
  unfolding is_deep
  is_deep-zero (node entry no_more hash) d = false≢true d
  is_deep-zero (node entry (before h rest) hash) d = false≢true d

  pub is_deep-previous :
      (h : History D) (n : ℕ) → is_deep h (suc n) ≡ true → each_deep (previous_of h) n ≡ true
  unfolding is_deep
  is_deep-previous (node entry no_more hash) n d = refl
  is_deep-previous (node entry (before h rest) hash) zero d = absurd (false≢true d)
  is_deep-previous (node entry (before h rest) hash) (suc n) d = d

  pub is_deep-first :
      (h : History D) (n : ℕ)
      → is_deep h (suc (suc n)) ≡ true
      → (p : History D) × (first_of (previous_of h) ≡ some p) × (is_deep p (suc n) ≡ true)
  unfolding is_deep
  is_deep-first (node entry no_more hash) n d = absurd (false≢true d)
  is_deep-first (node entry (before h rest) hash) n d = (h, refl, ground arith)

  pub is_deep-with_entry :
      (e : HistoryEntry D) (h : History D) (n : ℕ) → is_deep (with_entry e h) n ≡ is_deep h n
  unfolding is_deep
  is_deep-with_entry e (node entry no_more hash) zero = refl
  is_deep-with_entry e (node entry no_more hash) (suc zero) = refl
  is_deep-with_entry e (node entry no_more hash) (suc (suc n)) = refl
  is_deep-with_entry e (node entry (before h rest) hash) zero = refl
  is_deep-with_entry e (node entry (before h rest) hash) (suc zero) = refl
  is_deep-with_entry e (node entry (before h rest) hash) (suc (suc n)) = refl

  pub is_deep-with_previous :
      (h p : History D) (rest : Histories D) (n : ℕ)
      → each_deep (before p rest) (suc n) ≡ true
      → is_deep (with_previous (before p rest) h) (suc (suc n)) ≡ true
  unfolding is_deep
  is_deep-with_previous (node entry previous hash) p rest n d = d

  -- Lists of histories of one depth.
  abbrev pub Deep : ℕ → History D → Type 0
  Deep n h = is_deep h n ≡ true

  pub each_deep-from_list :
      (hs : List (History D)) (n : ℕ) → Each (Deep n) hs → each_deep (from_list hs) n ≡ true
  unfolding is_deep from_list
  each_deep-from_list [] n e = refl
  each_deep-from_list (h ∷ hs) n (d, e) = ground (arith, each_deep-from_list hs n e)

module _ {ℓ} {D : Type ℓ} (double : Doubles D) (combine : ℕ → ℕ → ℕ) where
  pub is_deep-make_hash :
      (h : History D) (n : ℕ) → is_deep (make_hash double combine h) n ≡ is_deep h n
  unfolding is_deep make_hash
  is_deep-make_hash (node entry no_more hash) zero = refl
  is_deep-make_hash (node entry no_more hash) (suc zero) = refl
  is_deep-make_hash (node entry no_more hash) (suc (suc n)) = refl
  is_deep-make_hash (node entry (before h rest) hash) zero = refl
  is_deep-make_hash (node entry (before h rest) hash) (suc zero) = refl
  is_deep-make_hash (node entry (before h rest) hash) (suc (suc n)) = refl
