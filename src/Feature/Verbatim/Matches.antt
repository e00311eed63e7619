-- ===== src/Feature/Verbatim/Matches.antt =====
-- MEMT/Feature/Verbatim/Sentence.cc: what the length of a run says of the words taken last.
use memt.Prelude.{
  ℕ, zero, suc, ◌^◌, ◌≤◌, ◌<◌, ◌≡◌, ◌∙◌, refl, sym, ap, ltb, ◌==◌, Bool, true, false, ◌&&◌, List,
  [], ◌∷◌, length, add32, any_bit, arith, inl, inr, Bool-cases, ◌⊎◌,
}
use memt.Input.{AlignmentInfo}
use memt.Feature.Verbatim.{run_length}

-- The words, the last one first, end in n + 1 words aligned to consecutive words.
unfoldable pub matches : ℕ → ℕ → List AlignmentInfo → Bool
matches mask zero [] = false
matches mask zero (a ∷ words) = any_bit a.type mask
matches mask (suc n) [] = false
matches mask (suc n) (a ∷ []) = false
matches mask (suc n) (a ∷ b ∷ words) =
    any_bit a.type mask && (add32 b.offset 1 == a.offset) && matches mask n (b ∷ words)

-- The length of the run after the words, of which the first in the sentence is its beginning.
unfoldable pub run_after : ℕ → List AlignmentInfo → ℕ
unfolding run_length
run_after mask [] = 0
run_after mask (a ∷ []) = 1
run_after mask (a ∷ b ∷ words) = run_length mask b a (run_after mask (b ∷ words))

matches_aligned :
    (mask n : ℕ) (a : AlignmentInfo) (words : List AlignmentInfo)
    → any_bit a.type mask ≡ false
    → matches mask n (a ∷ words) ≡ false
unfolding matches
matches_aligned mask zero a words h = h
matches_aligned mask (suc n) a [] h = refl
matches_aligned mask (suc n) a (b ∷ words) h = rw h refl

run_length_bound :
    (mask : ℕ) (pre cur : AlignmentInfo) (from : ℕ) → run_length mask pre cur from ≤ suc from
unfolding run_length
run_length_bound mask pre cur from =
    elim (Bool-cases
      (any_bit pre.type mask && any_bit cur.type mask && add32 pre.offset 1 == cur.offset)) [
        | inl e ↦ rw e (omega arith)
        | inr e ↦ rw e (elim (Bool-cases (any_bit cur.type mask)) [
          | inl f ↦ rw f (omega arith)
          | inr f ↦ rw f (omega arith)
        ])
      ]

run_after_bound : (mask : ℕ) (words : List AlignmentInfo) → run_after mask words ≤ length words
unfolding run_after
run_after_bound mask [] = omega arith
run_after_bound mask (a ∷ []) = omega arith
run_after_bound mask (a ∷ b ∷ words) = omega (
  arith,
  run_length_bound mask b a (run_after mask (b ∷ words)),
  run_after_bound mask (b ∷ words),
)

run_length_skipped :
    (mask : ℕ) (pre cur : AlignmentInfo) (from : ℕ)
    → any_bit cur.type mask ≡ false
    → run_length mask pre cur from ≡ 0
unfolding run_length
run_length_skipped mask pre cur from h = elim (Bool-cases (any_bit pre.type mask)) [
  | inl e ↦ rw e (rw h refl)
  | inr e ↦ rw e (rw h refl)
]

run_length_apart :
    (mask : ℕ) (pre cur : AlignmentInfo) (from : ℕ)
    → any_bit cur.type mask ≡ true
    → (any_bit pre.type mask ≡ false) ⊎ ((add32 pre.offset 1 == cur.offset) ≡ false)
    → run_length mask pre cur from ≡ 1
unfolding run_length
run_length_apart mask pre cur from h (inl k) = rw k (rw h refl)
run_length_apart mask pre cur from h (inr k) = elim (Bool-cases (any_bit pre.type mask)) [
  | inl e ↦ rw e (rw h (rw k refl))
  | inr e ↦ rw e (rw h refl)
]

run_length_joined :
    (mask : ℕ) (pre cur : AlignmentInfo) (from : ℕ)
    → any_bit cur.type mask ≡ true
    → any_bit pre.type mask ≡ true
    → (add32 pre.offset 1 == cur.offset) ≡ true
    → suc from < 2 ^ 64
    → run_length mask pre cur from ≡ suc from
unfolding run_length
run_length_joined mask pre cur from h k l small = rw h (rw k (rw l (omega (arith, small))))

and-false : (b : Bool) → (b && false) ≡ false
and-false true = refl
and-false false = refl

ltb_zero : (n : ℕ) → ltb n 0 ≡ false
ltb_zero n = ground arith

ltb_one : (n : ℕ) → ltb (suc n) 1 ≡ false
ltb_one n = ground arith

ltb-suc : (n m : ℕ) → ltb (suc n) (suc m) ≡ ltb n m
ltb-suc n m = ground arith

module _ (mask : ℕ) (a b : AlignmentInfo) (words : List AlignmentInfo)
    (small : suc (suc (length words)) < 2 ^ 64)
    (known : (n : ℕ)
      → any_bit b.type mask ≡ true
      → ltb n (run_after mask (b ∷ words)) ≡ matches mask n (b ∷ words)) where
  abbrev before : ℕ
  before = run_after mask (b ∷ words)

  longer_apart :
      (n : ℕ)
      → any_bit a.type mask ≡ true
      → (any_bit b.type mask ≡ false) ⊎ ((add32 b.offset 1 == a.offset) ≡ false)
      → ltb n 1 ≡ matches mask n (a ∷ b ∷ words)
  unfolding matches
  longer_apart zero h k = sym h
  longer_apart (suc n) h (inl k) =
      ltb_one n
      ∙ sym
          (rw h (rw (matches_aligned mask n b words k) (and-false (add32 b.offset 1 == a.offset))))
  longer_apart (suc n) h (inr k) = ltb_one n ∙ sym (rw h (rw k refl))

  longer_joined :
      (n : ℕ)
      → any_bit a.type mask ≡ true
      → any_bit b.type mask ≡ true
      → (add32 b.offset 1 == a.offset) ≡ true
      → ltb n (suc (run_after mask (b ∷ words))) ≡ matches mask n (a ∷ b ∷ words)
  unfolding matches
  longer_joined zero h k l = ground (arith, h)
  longer_joined (suc n) h k l =
      ltb-suc n (run_after mask (b ∷ words)) ∙ known n k ∙ sym (rw h (rw l refl))

  longer_step : (n : ℕ) → ltb n (run_after mask (a ∷ b ∷ words)) ≡ matches mask n (a ∷ b ∷ words)
  unfolding run_after
  longer_step n = elim (Bool-cases (any_bit a.type mask)) [
    | inl here ↦ elim (Bool-cases (any_bit b.type mask)) [
      | inl there ↦ elim (Bool-cases (add32 b.offset 1 == a.offset)) [
        | inl next ↦
            ap (ltb n) (
              run_length_joined mask b a before here there next
                (omega (arith, small, run_after_bound mask (b ∷ words))))
            ∙ longer_joined n here there next
        | inr far ↦
            ap (ltb n) (run_length_apart mask b a before here (inr far))
            ∙ longer_apart n here (inr far)
      ]
      | inr free ↦
          ap (ltb n) (run_length_apart mask b a before here (inl free))
          ∙ longer_apart n here (inl free)
    ]
    | inr free ↦
        ap (ltb n) (run_length_skipped mask b a before free)
        ∙ ltb_zero n
        ∙ sym (matches_aligned mask n a (b ∷ words) free)
  ]

longer_known :
    (mask : ℕ) (b : AlignmentInfo) (words : List AlignmentInfo)
    → suc (length words) < 2 ^ 64
    → (n : ℕ) → any_bit b.type mask ≡ true
    → ltb n (run_after mask (b ∷ words)) ≡ matches mask n (b ∷ words)
unfolding run_after matches
longer_known mask b [] small zero h = sym h
longer_known mask b [] small (suc n) h = ltb_one n
longer_known mask b (c ∷ words) small n h =
    longer_step mask b c words small (longer_known mask c words (omega (arith, small))) n

-- A run is longer than n exactly when the words end in n + 1 that match.
pub ltb-run_after :
    (mask n : ℕ) (a b : AlignmentInfo) (words : List AlignmentInfo)
    → suc (suc (length words)) < 2 ^ 64
    → ltb n (run_after mask (a ∷ b ∷ words)) ≡ matches mask n (a ∷ b ∷ words)
ltb-run_after mask n a b words small =
    longer_step mask a b words small (longer_known mask b words (omega (arith, small))) n
