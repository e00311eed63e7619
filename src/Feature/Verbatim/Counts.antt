-- ===== src/Feature/Verbatim/Counts.antt =====
-- MEMT/Feature/Verbatim/Sentence.cc: how often each of the two loops adds one to a score.
use memt.Prelude.{
  ℕ, zero, suc, ◌+◌, ◌*◌, ◌-◌, ◌≤◌, ◌<◌, ◌≡◌, ◌∙◌, min, refl, sym, ap, ltb, Bool, true, false, List,
  [], ◌∷◌, ◌++◌, if◌then◌else◌, get_or, drop, length, length-append, length-drop, get_or-drop,
  arith, inl, inr, Bool-cases,
}
use memt.Feature.Verbatim.{copy_some, engine_scores, individual_scores, collective_scores}

-- Adding so many times.
unfoldable pub again {ℓ} : {A : Type ℓ} → (A → A) → ℕ → A → A
again add zero s = s
again add (suc n) s = again add n (add s)

-- How many of the runs are longer than n.
unfoldable pub count_above : ℕ → List ℕ → ℕ
count_above n [] = 0
count_above n (run ∷ runs) = let rest = count_above n runs in if ltb n run then suc rest else rest

ltb-min : (run n i : ℕ) → i < n → ltb i (min run n) ≡ ltb i run
ltb-min run n i h = ground arith

ltb_short : (run n j : ℕ) → ltb run n ≡ true → ltb (n + j) run ≡ false
ltb_short run n j h = ground arith

ltb_long : (run n m j : ℕ) → ltb run n ≡ false → j < m - n → ltb j (min run m - n) ≡ ltb (n + j) run
ltb_long run n m j h k = ground arith

module _ {ℓ} {A : Type ℓ} (add : A → A) (blank : A) where
  pub length-copy_some :
      (n rounds : ℕ) (from : List A)
      → rounds ≤ length from
      → length (copy_some add n rounds from) ≡ rounds
  unfolding copy_some
  length-copy_some n zero from h = refl
  length-copy_some n (suc rounds) [] h = absurd (omega arith)
  length-copy_some zero (suc rounds) (s ∷ from) h =
      omega (arith, length-copy_some 0 rounds from (omega arith))
  length-copy_some (suc n) (suc rounds) (s ∷ from) h =
      omega (arith, length-copy_some n rounds from (omega arith))

  pub get_or-copy_some :
      (n rounds i : ℕ) (from : List A)
      → rounds ≤ length from
      → i < rounds
      → get_or (copy_some add n rounds from) i blank
        ≡ again add (if ltb i n then 1 else 0) (get_or from i blank)
  unfolding copy_some again
  get_or-copy_some n zero i from h k = absurd (omega arith)
  get_or-copy_some n (suc rounds) i [] h k = absurd (omega arith)
  get_or-copy_some zero (suc rounds) zero (s ∷ from) h k = refl
  get_or-copy_some zero (suc rounds) (suc i) (s ∷ from) h k =
      ground (arith, get_or-copy_some 0 rounds i from (omega arith) (omega arith))
  get_or-copy_some (suc n) (suc rounds) zero (s ∷ from) h k = ground arith
  get_or-copy_some (suc n) (suc rounds) (suc i) (s ∷ from) h k =
      ground (arith, get_or-copy_some n rounds i from (omega arith) (omega arith))

  pub get_or-append_left :
      (xs ys : List A) (i : ℕ) → i < length xs → get_or (xs ++ ys) i blank ≡ get_or xs i blank
  get_or-append_left [] ys i h = absurd (omega arith)
  get_or-append_left (x ∷ xs) ys zero h = refl
  get_or-append_left (x ∷ xs) ys (suc i) h = get_or-append_left xs ys i (omega arith)

  get_or-append_right :
      (xs ys : List A) (i : ℕ) → get_or (xs ++ ys) (length xs + i) blank ≡ get_or ys i blank
  get_or-append_right [] ys i = ap (λ k. get_or ys k blank) (omega arith)
  get_or-append_right (x ∷ xs) ys i = ground (arith, get_or-append_right xs ys i)

  -- The same with the length of the first list given.
  pub get_or_behind :
      (xs ys : List A) (n i : ℕ)
      → length xs ≡ n
      → get_or (xs ++ ys) (n + i) blank ≡ get_or ys i blank
  get_or_behind xs ys n i h =
      ap (λ k. get_or (xs ++ ys) (k + i) blank) (sym h) ∙ get_or-append_right xs ys i

  pub length-individual_scores :
      (n : ℕ) (runs : List ℕ) (from : List A)
      → length runs * n ≤ length from
      → length (individual_scores add n runs from) ≡ length runs * n
  unfolding individual_scores
  length-individual_scores n [] from h = omega arith
  length-individual_scores n (run ∷ runs) from h =
      length-append (copy_some add (min run n) n from) (individual_scores add n runs (drop n from))
      ∙ omega (
        arith,
        length-copy_some (min run n) n from (omega arith),
        length-individual_scores n runs (drop n from) (omega (arith, length-drop n from)),
      )

  pub get_or-individual_scores :
      (n : ℕ) (runs : List ℕ) (from : List A) (e i : ℕ)
      → length runs * n ≤ length from
      → e < length runs
      → i < n
      → get_or (individual_scores add n runs from) (e * n + i) blank
        ≡ again add (if ltb i (get_or runs e 0) then 1 else 0) (get_or from (e * n + i) blank)
  unfolding individual_scores
  get_or-individual_scores n [] from e i h k l = absurd (omega arith)
  get_or-individual_scores n (run ∷ runs) from zero i h k l =
      ap
        (λ k.
          get_or (copy_some add (min run n) n from ++ individual_scores add n runs (drop n from)) k
            blank)
        (omega arith)
      ∙ get_or-append_left (copy_some add (min run n) n from)
          (individual_scores add n runs (drop n from)) i
          (omega (arith, length-copy_some (min run n) n from (omega arith)))
      ∙ get_or-copy_some (min run n) n i from (omega arith) l
      ∙ ap (λ (b : Bool). again add (if b then 1 else 0) (get_or from i blank)) (ltb-min run n i l)
      ∙ ap (λ k. again add (if ltb i run then 1 else 0) (get_or from k blank)) (omega arith)
  get_or-individual_scores n (run ∷ runs) from (suc e) i h k l =
      ap
        (λ k.
          get_or (copy_some add (min run n) n from ++ individual_scores add n runs (drop n from)) k
            blank)
        (omega arith)
      ∙ get_or_behind (copy_some add (min run n) n from)
          (individual_scores add n runs (drop n from)) n (e * n + i)
          (length-copy_some (min run n) n from (omega arith))
      ∙ get_or-individual_scores n runs (drop n from) e i (omega (arith, length-drop n from))
          (omega arith) l
      ∙ ap (again add (if ltb i (get_or runs e 0) then 1 else 0))
          (get_or-drop n (e * n + i) from blank ∙ ap (λ k. get_or from k blank) (omega arith))

  length-engine_scores :
      (n m run : ℕ) (scores : List A)
      → length scores ≡ m - n
      → length (engine_scores add n m run scores) ≡ m - n
  length-engine_scores n m run scores h =
      ground (arith, h, length-copy_some (min run m - n) (m - n) scores (omega (arith, h)))

  get_or-engine_scores :
      (n m run : ℕ) (scores : List A) (j : ℕ)
      → length scores ≡ m - n
      → j < m - n
      → get_or (engine_scores add n m run scores) j blank
        ≡ again add (if ltb (n + j) run then 1 else 0) (get_or scores j blank)
  unfolding again
  get_or-engine_scores n m run scores j h k = elim (Bool-cases (ltb run n)) [
    | inl short ↦ rw short (rw (ltb_short run n j short) refl)
    | inr long ↦ rw long (
        get_or-copy_some (min run m - n) (m - n) j scores (omega (arith, h)) k
        ∙ ap (λ (b : Bool). again add (if b then 1 else 0) (get_or scores j blank))
            (ltb_long run n m j long k))
  ]

  pub length-collective_scores :
      (n m : ℕ) (runs : List ℕ) (scores : List A)
      → length scores ≡ m - n
      → length (collective_scores add n m runs scores) ≡ m - n
  unfolding collective_scores
  length-collective_scores n m [] scores h = h
  length-collective_scores n m (run ∷ runs) scores h =
      length-collective_scores n m runs (engine_scores add n m run scores)
        (length-engine_scores n m run scores h)

  pub get_or-collective_scores :
      (n m : ℕ) (runs : List ℕ) (scores : List A) (j : ℕ)
      → length scores ≡ m - n
      → j < m - n
      → get_or (collective_scores add n m runs scores) j blank
        ≡ again add (count_above (n + j) runs) (get_or scores j blank)
  unfolding collective_scores count_above again
  get_or-collective_scores n m [] scores j h k = refl
  get_or-collective_scores n m (run ∷ runs) scores j h k =
      get_or-collective_scores n m runs (engine_scores add n m run scores) j
        (length-engine_scores n m run scores h) k
      ∙ ap (again add (count_above (n + j) runs)) (get_or-engine_scores n m run scores j h k)
      ∙ elim (Bool-cases (ltb (n + j) run)) [ inl e ↦ rw e refl | inr e ↦ rw e refl ]
