-- ===== src/Horizon/Coverage/Canonical.antt =====
-- The invariant of a coverage: its flags fit, and the last of them is set. So operator==, which
-- compares the representations, decides whether two coverages have the same used words.
use memt.Prelude.{
  ℕ, zero, suc, ◌+◌, ◌-◌, ◌<◌, ◌≤◌, ◌≡◌, ◌↔◌, refl, ap, ap₂, sym, ◌∙◌, Bool, true, false, List, [],
  ◌∷◌, arith, ltb, leb, ◌==◌, if◌then◌else◌, length, get_or, set, drop, resize, word_mod,
  length-set, length-resize, length-drop, inl, inr, ◌⊎◌, Bool-cases,
}
use mathlib.Core.Bool.{false≢true}
use native.Mathlib.Decide.{dec_lt}
use memt.Horizon.Coverage.{
  Coverage, find_index, initialize_root, use_frontier, use_word, use_to, advance_past, is_used,
  Fits, eq_flags, eq_coverage, used_idx,
}
use memt.Horizon.Coverage.Set.{
  find_index-le, stop, stop_flag, use_to-behind, use_to-beyond, use_to-inside,
}

-- The last flag, if there is one, is set.
unfoldable pub ends_set : List Bool → Bool
ends_set [] = true
ends_set (x ∷ []) = x
ends_set (x ∷ y ∷ xs) = ends_set (y ∷ xs)

-- For a sentence of `n` words.
pub record IsValid (n : ℕ) (c : Coverage) : Type 0 where
  pub inside : c.frontier ≤ n
  pub flags : (length c.used ≡ 0) ⊎ (c.frontier + length c.used + 1 ≤ n)
  pub ends : ends_set c.used ≡ true

pub IsValid-Fits : (n : ℕ) (c : Coverage) → n + 1 < word_mod → IsValid n c → Fits c
IsValid-Fits n c h v = ground (arith, v.inside, v.flags)

ends_set-drop : (n : ℕ) (xs : List Bool) → ends_set xs ≡ true → ends_set (drop n xs) ≡ true
unfolding ends_set
ends_set-drop zero xs h = h
ends_set-drop (suc n) [] h = refl
ends_set-drop (suc zero) (x ∷ []) h = refl
ends_set-drop (suc (suc n)) (x ∷ []) h = refl
ends_set-drop (suc n) (x ∷ y ∷ xs) h = ends_set-drop n (y ∷ xs) h

ends_set-resize :
    (i : ℕ) (xs : List Bool)
    → length xs ≤ i
    → ends_set (set (resize (suc i) false xs) i true) ≡ true
unfolding ends_set
ends_set-resize zero [] h = refl
ends_set-resize zero (x ∷ xs) h = absurd (omega arith)
ends_set-resize (suc zero) [] h = refl
ends_set-resize (suc (suc i)) [] h = ends_set-resize (suc i) [] (omega arith)
ends_set-resize (suc zero) (x ∷ []) h = refl
ends_set-resize (suc (suc i)) (x ∷ []) h = ends_set-resize (suc i) [] (omega arith)
ends_set-resize (suc zero) (x ∷ y ∷ xs) h = absurd (omega arith)
ends_set-resize (suc (suc i)) (x ∷ y ∷ xs) h = ends_set-resize (suc i) (y ∷ xs) (omega arith)

ends_set-set : (xs : List Bool) (i : ℕ) → ends_set xs ≡ true → ends_set (set xs i true) ≡ true
unfolding ends_set
ends_set-set [] i h = refl
ends_set-set (x ∷ []) zero h = refl
ends_set-set (x ∷ []) (suc i) h = h
ends_set-set (x ∷ y ∷ xs) zero h = h
ends_set-set (x ∷ y ∷ xs) (suc zero) h = ends_set-set (y ∷ xs) zero h
ends_set-set (x ∷ y ∷ xs) (suc (suc i)) h = ends_set-set (y ∷ xs) (suc i) h

ends_set-nil : ends_set [] ≡ true
unfolding ends_set
ends_set-nil = refl

pub initialize_root-IsValid : (n : ℕ) → 0 < n → IsValid n initialize_root
unfolding initialize_root
initialize_root-IsValid n h = record { inside = omega arith; flags = inl refl; ends = ends_set-nil }

module _ (n : ℕ) (c : Coverage) (room : n + 1 < word_mod) (v : IsValid n c) where
  pub advance_past-IsValid :
      (i : ℕ) → i ≤ length c.used → c.frontier < n → IsValid n (advance_past c i)
  unfolding advance_past
  advance_past-IsValid i h k = record {
    inside = ground (arith, v.flags);
    flags = elim (Bool-cases (i == length c.used)) [
      | inl e ↦ rw e (inl refl)
      | inr e ↦ rw e (ground (arith, v.flags, length-drop (suc i) c.used))
    ];
    ends = ground (arith, ends_set-nil, ends_set-drop (suc i) c.used v.ends);
  }

  pub use_frontier-IsValid : c.frontier < n → IsValid n (use_frontier c)
  unfolding use_frontier
  use_frontier-IsValid = advance_past-IsValid (find_index false c.used) (find_index-le false c.used)

  grown-ends_set :
      (i : ℕ)
      → ends_set
          (set (if leb (length c.used) i then resize (i + 1) false c.used else c.used) i true)
        ≡ true
  grown-ends_set i = ground (arith, ends_set-resize i c.used, ends_set-set c.used i v.ends)

  length-grown :
      (i : ℕ)
      → c.frontier + i + 2 ≤ n
      → c.frontier
          + length
              (set (if leb (length c.used) i then resize (i + 1) false c.used else c.used) i true)
          + 1
        ≤ n
  length-grown i h = ground (
    arith,
    v.flags,
    length-set (resize (i + 1) false c.used) i true,
    length-set c.used i true,
    length-resize (i + 1) false c.used,
  )

  -- `Use` of a word of the sentence keeps the invariant of a valid coverage, where the length of the
  -- sentence fits in 32 bits.
  pub use_word-IsValid : (word : ℕ) → word < n → IsValid n (use_word c word)
  unfolding use_word
  use_word-IsValid word h = elim (Bool-cases (word == c.frontier)) [
    | inl e ↦ rw e (use_frontier-IsValid (ground arith))
    | inr e ↦ rw e (elim (Bool-cases (ltb c.frontier word)) [
      | inl ahead ↦ rw ahead (record {
        inside = v.inside;
        flags = inr (length-grown (used_idx c word) (ground (arith, v.inside)));
        ends = grown-ends_set (used_idx c word);
      })
      | inr behind ↦ rw behind v
    ])
  ]

  -- `UseTo` within the sentence keeps the invariant of a valid coverage, where the length of the
  -- sentence fits in 32 bits.
  use_to-IsValid : (word : ℕ) → word ≤ n → IsValid n (use_to c word).0
  use_to-IsValid word h =
      let fits = IsValid-Fits n c room v in
      elim (dec_lt c.frontier word) [
        | no behind ↦ rw (use_to-behind c word fits (omega arith) (omega arith)) v
        | yes k ↦ elim (dec_lt (word - c.frontier - 1) (length c.used)) [
          | no beyond ↦
              rw (use_to-beyond c word fits (omega arith) k (omega arith))
                (record { inside = h; flags = inl refl; ends = ends_set-nil })
          | yes inside ↦ rw (use_to-inside c word fits (omega arith) k inside) (
              advance_past-IsValid (stop c word) (stop_flag c word fits (omega arith) inside).0
                (omega arith))
        ]
      ]

last_set :
    (x : Bool) (xs : List Bool)
    → ends_set (x ∷ xs) ≡ true
    → get_or (x ∷ xs) (length xs) false ≡ true
unfolding ends_set
last_set x [] h = h
last_set x (y ∷ xs) h = last_set y xs h

ends_set-tail : (x : Bool) (xs : List Bool) → ends_set (x ∷ xs) ≡ true → ends_set xs ≡ true
unfolding ends_set
ends_set-tail x [] h = refl
ends_set-tail x (y ∷ xs) h = h

same_flags :
    (xs ys : List Bool) (n : ℕ)
    → length xs ≤ n
    → length ys ≤ n
    → ends_set xs ≡ true
    → ends_set ys ≡ true
    → ((i : ℕ) → i < n → get_or xs i false ≡ get_or ys i false)
    → xs ≡ ys
same_flags [] [] n h k e f g = refl
same_flags [] (y ∷ ys) n h k e f g =
    absurd (false≢true (g (length ys) (omega arith) ∙ last_set y ys f))
same_flags (x ∷ xs) [] n h k e f g =
    absurd (false≢true (sym (g (length xs) (omega arith)) ∙ last_set x xs e))
same_flags (x ∷ xs) (y ∷ ys) zero h k e f g = absurd (omega arith)
same_flags (x ∷ xs) (y ∷ ys) (suc n) h k e f g = ap₂ ◌∷◌ (g 0 (omega arith)) (
    same_flags xs ys n (omega arith) (omega arith) (ends_set-tail x xs e) (ends_set-tail y ys f)
      (λ i j. g (suc i) (omega arith)))

eq_flags_sound : (xs ys : List Bool) → eq_flags xs ys ≡ true → xs ≡ ys
unfolding eq_flags
eq_flags_sound [] [] h = refl
eq_flags_sound [] (y ∷ ys) h = absurd (false≢true h)
eq_flags_sound (x ∷ xs) [] h = absurd (false≢true h)
eq_flags_sound (true ∷ xs) (true ∷ ys) h = ap (◌∷◌ true) (eq_flags_sound xs ys h)
eq_flags_sound (false ∷ xs) (false ∷ ys) h = ap (◌∷◌ false) (eq_flags_sound xs ys h)
eq_flags_sound (true ∷ xs) (false ∷ ys) h = absurd (false≢true h)
eq_flags_sound (false ∷ xs) (true ∷ ys) h = absurd (false≢true h)

eq_flags_self : (xs : List Bool) → eq_flags xs xs ≡ true
unfolding eq_flags
eq_flags_self [] = refl
eq_flags_self (true ∷ xs) = eq_flags_self xs
eq_flags_self (false ∷ xs) = eq_flags_self xs

pub eq_coverage_iff : (c d : Coverage) → (eq_coverage c d ≡ true) ↔ (c ≡ d)
unfolding eq_coverage
eq_coverage_iff c d = (
  λ h. ground (arith, eq_flags_sound c.used d.used),
  λ e. rw e (ground (arith, eq_flags_self d.used)),
)

used_at :
    (i : ℕ) (c : Coverage)
    → c.frontier + i + 1 < word_mod
    → is_used c (c.frontier + 1 + i) ≡ get_or c.used i false
unfolding is_used
used_at i c h = ground arith

-- Two coverages of a sentence with the same used words are the same.
module _ (n : ℕ) (c d : Coverage) (room : n + 1 < word_mod) (v : IsValid n c)
    (w : IsValid n d) where
  module _ (h : (o : ℕ) → o < word_mod → is_used c o ≡ is_used d o) where
    same_frontier : c.frontier ≡ d.frontier
    unfolding is_used
    same_frontier = ground (arith, h c.frontier, h d.frontier, v.inside, w.inside)

    same_flag : (i : ℕ) → i < n - c.frontier → get_or c.used i false ≡ get_or d.used i false
    same_flag i k = ground (arith, used_at i c, used_at i d, same_frontier, h (c.frontier + 1 + i))

    same_used : c ≡ d
    same_used =
        let flags =
          same_flags c.used d.used (n - c.frontier) (ground (arith, v.flags))
            (ground (arith, w.flags, same_frontier)) v.ends w.ends same_flag in
        ground (arith, flags, same_frontier)

-- operator== on valid coverages of one sentence, whose length fits in 32 bits, decides whether they
-- have the same used words.
pub eq_coverage-is_used_iff :
    (n : ℕ) (c d : Coverage)
    → n + 1 < word_mod
    → IsValid n c
    → IsValid n d
    → (eq_coverage c d ≡ true) ↔ ((o : ℕ) → o < word_mod → is_used c o ≡ is_used d o)
eq_coverage-is_used_iff n c d room v w = (
  λ h o k. rw ((eq_coverage_iff c d).0 h),
  λ h. (eq_coverage_iff c d).1 (same_used n c d room v w h),
)
