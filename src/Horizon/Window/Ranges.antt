-- ===== src/Horizon/Window/Ranges.antt =====
-- The ranges that System::Reset keeps, for each word and each other system.
use mathlib.Core.Option.{some-injective}
use memt.Prelude.{
  ℕ, zero, suc, ◌+◌, ◌-◌, ◌≤◌, ◌<◌, ◌≡◌, ◌∙◌, refl, sym, ap, ap₂, true, List, [], ◌∷◌, some, arith,
  add32, sub32, word_mod, min, max, length, get_or, Bool-cases, inl, inr,
}
use memt.Input.{Input, ask, is_connection, get_engine, num_engines, engine_length}
use memt.Horizon.Window.{
  int_lt, int_min, int_max, bound, near, near_row, near_rows, Range, reset_window, make_projection,
  from_beginning, from_end,
}
use memt.Horizon.Window.Bounds.{IsModerate, near_aligned}
use memt.Horizon.Window.Projection.{align_at, make_projection-Projected}

-- A signed number, in two's complement, with 2^31 more.
abbrev pub raised : ℕ → ℕ
raised a = add32 a 2147483648

int_min-raised : (a b : ℕ) → raised (int_min a b) ≡ min (raised a) (raised b)
int_min-raised a b = ground arith

int_max-raised : (a b : ℕ) → raised (int_max a b) ≡ max (raised a) (raised b)
int_max-raised a b = ground arith

bound-raised :
    (n a : ℕ)
    → 0 < n
    → n < 2147483648
    → a < word_mod
    → bound 0 (sub32 n 1) a ≡ min (n - 1) (raised a - 2147483648)
unfolding bound
bound-raised n a h k l = ground arith

raised-sub32 :
    (a radius : ℕ)
    → radius < 1073741824
    → 1073741824 ≤ raised a
    → a < word_mod
    → raised (sub32 a radius) ≡ raised a - radius
raised-sub32 a radius h k l = omega (arith, h, k, l)

raised-add32 :
    (a radius : ℕ)
    → radius < 1073741824
    → raised a < 3221225472
    → a < word_mod
    → raised (add32 a radius) ≡ raised a + radius
raised-add32 a radius h k l = omega (arith, h, k, l)

int_min-IsModerate : (a b : ℕ) → IsModerate a → IsModerate b → IsModerate (int_min a b)
int_min-IsModerate a b p q = elim (Bool-cases (int_lt b a)) [ inl e ↦ rw e q | inr e ↦ rw e p ]

int_max-IsModerate : (a b : ℕ) → IsModerate a → IsModerate b → IsModerate (int_max a b)
int_max-IsModerate a b p q = elim (Bool-cases (int_lt a b)) [ inl e ↦ rw e q | inr e ↦ rw e p ]

-- The words of a system of `n` from the lower of two raised numbers less the radius to the higher one
-- with the radius.
abbrev pub around : ℕ → ℕ → ℕ → ℕ → Range
around radius n left right = record {
  start = min (n - 1) (min left right - radius - 2147483648);
  end = min (n - 1) (max left right + radius - 2147483648);
}

near-around :
    (radius n left right : ℕ)
    → 0 < n
    → n < 2147483648
    → radius < 1073741824
    → IsModerate left
    → IsModerate right
    → near radius n left right ≡ around radius n (raised left) (raised right)
unfolding near
near-around radius n left right pos h small l r =
    let low = int_min left right in
    let high = int_max left right in
    let low_moderate = int_min-IsModerate left right l r in
    let high_moderate = int_max-IsModerate left right l r in
    ap₂ (λ (s t : ℕ). record { start = s; end = t })
      (bound-raised n (sub32 low radius) pos h (omega arith)
        ∙ ap (λ a. min (n - 1) (a - 2147483648))
            (raised-sub32 low radius small low_moderate.0 low_moderate.2
              ∙ ap (λ a. a - radius) (int_min-raised left right)))
      (bound-raised n (add32 high radius) pos h (omega arith)
        ∙ ap (λ a. min (n - 1) (a - 2147483648))
            (raised-add32 high radius small high_moderate.1 high_moderate.2
              ∙ ap (λ a. a + radius) (int_max-raised left right)))

abbrev pub no_range : Range
no_range = record { start = 0; end = 0 }

module _ (radius n : ℕ) where
  get_or-near_row :
      (e : ℕ) (lefts rights : List ℕ)
      → e < length lefts
      → e < length rights
      → get_or (near_row radius n lefts rights) e no_range
        ≡ near radius n (get_or lefts e 0) (get_or rights e 0)
  unfolding near_row
  get_or-near_row e [] rights h k = absurd (omega (arith, h))
  get_or-near_row e (l ∷ lefts) [] h k = absurd (omega (arith, k))
  get_or-near_row zero (l ∷ lefts) (r ∷ rights) h k = refl
  get_or-near_row (suc e) (l ∷ lefts) (r ∷ rights) h k =
      get_or-near_row e lefts rights (omega (arith, h)) (omega (arith, k))

  get_or-near_rows :
      (k : ℕ) (lefts rights : List (List ℕ))
      → k < length lefts
      → k < length rights
      → get_or (near_rows radius n lefts rights) k []
        ≡ near_row radius n (get_or lefts k []) (get_or rights k [])
  unfolding near_rows
  get_or-near_rows k [] rights h i = absurd (omega (arith, h))
  get_or-near_rows k (l ∷ lefts) [] h i = absurd (omega (arith, i))
  get_or-near_rows zero (l ∷ lefts) (r ∷ rights) h i = refl
  get_or-near_rows (suc k) (l ∷ lefts) (r ∷ rights) h i =
      get_or-near_rows k lefts rights (omega (arith, h)) (omega (arith, i))

module _ (radius : ℕ) (input : Input) (own e : ℕ) (known : e < num_engines input)
    (pos : 0 < engine_length (get_engine input own))
    (short : engine_length (get_engine input own) < 2147483648) (small : radius < 1073741824)
    (fits : (k : ℕ) → (ask (align_at (get_engine input own).words k) e).offset < word_mod) where
  abbrev size : ℕ
  size = engine_length (get_engine input own)

  reset_window-some :
      (lefts rights : List (List ℕ))
      → make_projection input (from_beginning size) own ≡ some lefts
      → make_projection input (from_end size) own ≡ some rights
      → reset_window radius input own ≡ some (near_rows radius size lefts rights)
  unfolding reset_window
  reset_window-some lefts rights made made' = rw (reset_window, made, made') refl

  -- The two projections and the ranges made of them.
  ranges :
      (lefts : List (List ℕ)) × (rights : List (List ℕ)) × (make_projection input
          (from_beginning size)
          own
        ≡ some lefts)
      × (make_projection input (from_end size) own ≡ some rights)
      × (reset_window radius input own ≡ some (near_rows radius size lefts rights))
      × ((k : ℕ)
          → k < size
          → (get_or (get_or (near_rows radius size lefts rights) k []) e no_range
              ≡ near radius size (get_or (get_or lefts k []) e 0) (get_or (get_or rights k []) e 0))
            × (is_connection (ask (align_at (get_engine input own).words k) e) ≡ true
                → (get_or (get_or lefts k []) e 0
                    ≡ (ask (align_at (get_engine input own).words k) e).offset)
                  × (get_or (get_or rights k []) e 0
                      ≡ (ask (align_at (get_engine input own).words k) e).offset)))
  ranges =
      let ((lefts, made, sized, projected), (rights, made', sized', projected')) =
        make_projection-Projected input own e known pos (omega arith) fits in
      (
        lefts,
        rights,
        made,
        made',
        reset_window-some lefts rights made made',
        λ k h. (
          ap (λ row. get_or row e no_range)
                (get_or-near_rows radius size k lefts rights (omega arith) (omega arith))
              ∙ get_or-near_row radius size e _ _ (projected k h).0 (projected' k h).0,
          λ c. ((projected k h).1 c, (projected' k h).1 c),
        ),
      )

  -- System::Reset ends, and the range of a word in another system goes from the lower of the word's two
  -- projections less the radius to the higher one with the radius, cut to the length of its own system. The
  -- conditions: the projections, as signed numbers, and the radius are below 2^30, the system has words,
  -- fewer than 2^31, and the offsets of alignments fit in 32 bits.
  pub reset_window-between :
      (lefts rights : List (List ℕ)) (k : ℕ)
      → make_projection input (from_beginning size) own ≡ some lefts
      → make_projection input (from_end size) own ≡ some rights
      → k < size
      → IsModerate (get_or (get_or lefts k []) e 0)
      → IsModerate (get_or (get_or rights k []) e 0)
      → (rows : List (List Range)) × (reset_window radius input own ≡ some rows)
        × (get_or (get_or rows k []) e no_range
            ≡ around radius size
                (raised (get_or (get_or lefts k []) e 0))
                (raised (get_or (get_or rights k []) e 0)))
  reset_window-between lefts rights k made made' h l r =
      let (lefts', rights', left_made, right_made, made_rows, ranged) = ranges in
      let same : lefts' ≡ lefts = some-injective _ _ (sym left_made ∙ made) in
      let same' : rights' ≡ rights = some-injective _ _ (sym right_made ∙ made') in
      (
        near_rows radius size lefts' rights',
        made_rows,
        (ranged k h).0
            ∙ ap₂
                (λ (x y : List (List ℕ)).
                  near radius size (get_or (get_or x k []) e 0) (get_or (get_or y k []) e 0))
                same same'
            ∙ near-around radius size _ _ pos short small l r,
      )

  -- System::Reset ends, and a word that is aligned to an offset of another system has there the range of
  -- the offsets within the radius of it, cut to the length of its own system. The conditions: the radius
  -- and the offset are below 2^30, the system has words, fewer than 2^31, and the offsets of alignments
  -- fit in 32 bits.
  pub reset_window-aligned :
      (k : ℕ)
      → k < size
      → is_connection (ask (align_at (get_engine input own).words k) e) ≡ true
      → (ask (align_at (get_engine input own).words k) e).offset < 1073741824
      → (rows : List (List Range)) × (reset_window radius input own ≡ some rows)
        × (get_or (get_or rows k []) e no_range ≡ record {
          start =
              min (size - 1) ((ask (align_at (get_engine input own).words k) e).offset - radius);
          end = min (size - 1) ((ask (align_at (get_engine input own).words k) e).offset + radius);
        })
  reset_window-aligned k h c low =
      let (lefts, rights, left_made, right_made, made_rows, ranged) = ranges in
      let (at, projected) = ranged k h in
      (
        near_rows radius size lefts rights,
        made_rows,
        at
            ∙ ap₂ (near radius size) (projected c).0 (projected c).1
            ∙ near_aligned radius size _ pos short small low,
      )
