-- ===== src/Horizon/Window/Projection.antt =====
-- MakeProjection ends in both directions, and at an aligned word it yields the aligned offset.
use native.Mathlib.Decide.{ℕ_discrete}
use memt.Prelude.{
  sym, subst, ap₂, ℕ, zero, suc, ◌+◌, ◌-◌, ◌≤◌, ◌<◌, ◌≡◌, ◌≢◌, ◌⊎◌, word_max, refl, ap, ◌∙◌, true,
  false, List, [], ◌∷◌, Option, some, ◌==◌, arith, add32, sub32, word_mod, length, get_or, set,
  replicate, length-set, get_or-set, inl, inr, Bool-cases, length-replicate, length-map, ==_self,
}
use memt.Input.{
  Word, Input, WordAlignments, ask, is_connection, get_engine, num_engines, engine_length,
  blank_text,
}
use memt.Horizon.Window.{
  from_beginning, from_end, update_shifts, project, projection_loop, make_projection,
}

abbrev pub align_at : List Word → ℕ → WordAlignments
align_at words o = (get_or words o (record { text = blank_text; alignments = [] })).alignments

-- The row of a word has a projection into system `e`, which at an aligned word is the aligned offset.
abbrev pub ProjectsAt : List Word → ℕ → ℕ → List (List ℕ) → Type 0
ProjectsAt words e k rows =
    (e < length (get_or rows k []))
    × (is_connection (ask (align_at words k) e) ≡ true
        → get_or (get_or rows k []) e 0 ≡ (ask (align_at words k) e).offset)

below_suc : (k o : ℕ) → k < suc o → (k < o) ⊎ (k ≡ o)
below_suc k o h = grind arith

above : (k : ℕ) → (0 < k) ⊎ (k ≡ 0)
above k = grind arith

above_suc : (k o : ℕ) → o < k → (suc o < k) ⊎ (k ≡ suc o)
above_suc k o h = grind arith

-- The run of a direction ends with a row for each word, and with all the aligned words projected.
abbrev pub Projected : List Word → ℕ → ℕ → Option (List (List ℕ)) → Type 0
Projected words e n r =
    (rows : List (List ℕ)) × (r ≡ some rows)
    × (length rows ≡ n)
    × ((k : ℕ) → k < n → ProjectsAt words e k rows)

length-update_shifts :
    (al : WordAlignments) (o other : ℕ) (shifts : List ℕ)
    → length (update_shifts al o other shifts) ≡ length shifts
unfolding update_shifts
length-update_shifts al o other [] = refl
length-update_shifts al o other (s ∷ shifts) = ap suc (length-update_shifts al o (suc other) shifts)

projects :
    (al : WordAlignments) (o other e : ℕ) (shifts : List ℕ)
    → e < length shifts
    → o < word_mod
    → (ask al (other + e)).offset < word_mod
    → is_connection (ask al (other + e)) ≡ true
    → get_or (project o (update_shifts al o other shifts)) e 0 ≡ (ask al (other + e)).offset
unfolding update_shifts
projects al o other e [] h s p k = absurd (omega arith)
projects al o other zero (x ∷ shifts) h s p k =
    let z : other + 0 ≡ other = omega arith in
    rw z (
      let k' : is_connection (ask al other) ≡ true = (rw z at k) in
      let p' : (ask al other).offset < word_mod = (rw z at p) in rw k' (omega arith))
projects al o other (suc e) (x ∷ shifts) h s p k =
    let z : other + suc e ≡ suc other + e = omega arith in
    rw z (projects al o (suc other) e shifts (omega arith) s (rw z at p) (rw z at k))

module _ (words : List Word) (e engines : ℕ) (he : e < engines)
    (fits : (k : ℕ) → (ask (align_at words k) e).offset < word_mod) where
  -- One round writes the row of its word, and no other.
  row_written :
      (o : ℕ) (shifts : List ℕ) (rows : List (List ℕ))
      → length shifts ≡ engines
      → o < length rows
      → o < word_mod
      → ProjectsAt words e o (set rows o (project o (update_shifts (align_at words o) o 0 shifts)))
  row_written o shifts rows s h w =
      let row = project o (update_shifts (align_at words o) o 0 shifts) in
      let z : 0 + e ≡ e = omega arith in
      let here : get_or (set rows o row) o [] ≡ row =
        rw (get_or-set rows o o row [] h, ==_self o) refl in
      (
        rw here (
            omega (
              arith,
              he,
              s,
              length-update_shifts (align_at words o) o 0 shifts,
              length-map (λ shift. add32 shift o) (update_shifts (align_at words o) o 0 shifts),
            )),
        λ k. rw here (
            rw z at
              (projects (align_at words o) o 0 e shifts (rw s he) w (rw z (fits o)) (rw z k))),
      )

  row_kept :
      (o k : ℕ) (row : List ℕ) (rows : List (List ℕ))
      → o < length rows
      → k ≢ o
      → ProjectsAt words e k rows
      → ProjectsAt words e k (set rows o row)
  row_kept o k row rows h other (p, q) =
      let there : get_or (set rows o row) k [] ≡ get_or rows k [] =
        ground (arith, get_or-set rows o k row [], other) in
      (rw there p, λ c. rw there (q c))

  -- What a direction has reached: the rows of the words in `Done` are projected.
  record State (n : ℕ) (Done : ℕ → Type 0) (shifts : List ℕ) (rows : List (List ℕ)) : Type 0 where
    sized : length rows ≡ n
    shifted : length shifts ≡ engines
    done : (k : ℕ) → k < n → Done k → ProjectsAt words e k rows

  next_shifts : ℕ → List ℕ → List ℕ
  next_shifts o shifts = update_shifts (align_at words o) o 0 shifts

  next_rows : ℕ → List ℕ → List (List ℕ) → List (List ℕ)
  unfolding next_shifts
  next_rows o shifts rows = set rows o (project o (next_shifts o shifts))

  round :
      (n o : ℕ) (Done : ℕ → Type 0) (shifts : List ℕ) (rows : List (List ℕ))
      → o < n
      → n < word_mod
      → State n Done shifts rows
      → State n (λ k. Done k ⊎ (k ≡ o)) (next_shifts o shifts) (next_rows o shifts rows)
  unfolding next_shifts next_rows
  round n o Done shifts rows h w v = record {
    sized = length-set rows o _ ∙ v.sized;
    shifted = length-update_shifts (align_at words o) o 0 shifts ∙ v.shifted;
    done = λ k inside d. elim (ℕ_discrete k o) [
      | yes same ↦ rw same (row_written o shifts rows v.shifted (rw v.sized h) (omega arith))
      | no other ↦
          row_kept o k _ rows (rw v.sized h) other
            (v.done k inside (elim d [ inl x ↦ x | inr same ↦ absurd (other same) ]))
    ];
  }

  widen :
      {n : ℕ} {Done Done' : ℕ → Type 0} {shifts : List ℕ} {rows : List (List ℕ)}
      → ((k : ℕ) → Done' k → Done k)
      → State n Done shifts rows
      → State n Done' shifts rows
  widen f v = record {
    sized = v.sized;
    shifted = v.shifted;
    done = λ k inside d. v.done k inside (f k d);
  }

  beginning :
      (fuel n o : ℕ) (shifts : List ℕ) (rows : List (List ℕ))
      → n < o + fuel
      → o ≤ n
      → n < word_mod
      → State n (λ k. k < o) shifts rows
      → Projected words e n (projection_loop fuel (from_beginning n) words o shifts rows)
  unfolding projection_loop from_beginning next_shifts next_rows
  beginning zero n o shifts rows f l w v = absurd (omega arith)
  beginning (suc fuel) n o shifts rows f l w v = elim (Bool-cases (o == n)) [
    | inl stop ↦ (rows, rw stop refl, v.sized, λ k h. v.done k h (ground arith))
    | inr goes ↦
        let less : o < n = ground arith in
        let step : add32 o 1 ≡ suc o = omega arith in
        let v' =
          widen {Done = λ k. (k < o) ⊎ (k ≡ o)} {Done' = λ k. k < suc o} (λ k h. below_suc k o h)
            (round n o (λ k. k < o) shifts rows less w v) in
        rw (goes, step)
          (beginning fuel n (suc o) (next_shifts o shifts) (next_rows o shifts rows) (omega arith)
            less w v')
  ]

  -- Downwards `o` is the word to read, or 2^32 - 1 when the first word has been read.
  end_loop :
      (fuel n o : ℕ) (shifts : List ℕ) (rows : List (List ℕ))
      → o < fuel
      → o < n
      → n < word_max
      → State n (λ k. o < k) shifts rows
      → Projected words e n (projection_loop (suc fuel) (from_end n) words o shifts rows)
  unfolding projection_loop from_end next_shifts next_rows
  end_loop zero n o shifts rows f l w v = absurd (omega arith)
  end_loop (suc fuel) n zero shifts rows f l w v =
      let v' =
        widen {Done = λ k. (0 < k) ⊎ (k ≡ 0)} {Done' = λ k. k < n} (λ k h. above k)
          (round n 0 (λ k. 0 < k) shifts rows l (omega arith) v) in
      (next_rows 0 shifts rows, refl, v'.sized, λ k h. v'.done k h h)
  end_loop (suc fuel) n (suc o) shifts rows f l w v =
      let goes : (suc o == word_max) ≡ false = ground arith in
      let step : sub32 (suc o) 1 ≡ o = omega arith in
      let v' =
        widen {Done = λ k. (suc o < k) ⊎ (k ≡ suc o)} {Done' = λ k. o < k} (λ k h. above_suc k o h)
          (round n (suc o) (λ k. suc o < k) shifts rows l (omega arith) v) in
      rw (goes, step)
        (end_loop fuel n o (next_shifts (suc o) shifts) (next_rows (suc o) shifts rows)
          (omega arith) (omega arith) w v')

  -- Before the first round; a word past the end has no alignment.
  start :
      (Done : ℕ → Type 0)
      → ((k : ℕ) → Done k → length words ≤ k)
      → State (length words) Done (replicate engines 0) (replicate (length words) [])
  start Done f = record {
    sized = length-replicate (length words) [];
    shifted = length-replicate engines 0;
    done = λ k inside d. absurd (omega (arith, inside, f k d));
  }

-- From either end of a sentence MakeProjection ends within its fuel, with a row for each word, and
-- the row of a word that is aligned to a word of the other system holds the offset of that word, where
-- there are words, and their number and the offsets fit in 32 bits.
pub make_projection-Projected :
    (input : Input) (engine e : ℕ)
    → e < num_engines input
    → 0 < engine_length (get_engine input engine)
    → engine_length (get_engine input engine) < word_max
    → ((k : ℕ) → (ask (align_at (get_engine input engine).words k) e).offset < word_mod)
    → Projected
        (get_engine input engine).words
        e
        (engine_length (get_engine input engine))
        (make_projection input (from_beginning (engine_length (get_engine input engine))) engine)
      × Projected
          (get_engine input engine).words
          e
          (engine_length (get_engine input engine))
          (make_projection input (from_end (engine_length (get_engine input engine))) engine)
unfolding make_projection from_beginning from_end
make_projection-Projected input engine e he pos small fits =
    let words = (get_engine input engine).words in
    let n = length words in
    let fuel : n + 1 ≡ suc n = omega arith in
    let last : sub32 n 1 ≡ n - 1 = omega arith in
    (
      beginning words e (num_engines input) he fits (n + 1) n 0 _ _ (omega arith) (omega arith)
          (omega arith)
          (start words e (num_engines input) he fits (λ k. k < 0) (λ k h. absurd (omega arith))),
      subst (Projected words e n)
          (ap₂
            (λ f o.
              projection_loop f (from_end n) words o (replicate (num_engines input) 0)
                (replicate n []))
            (sym fuel) (sym last))
          (end_loop words e (num_engines input) he fits n n (n - 1) _ _ (omega arith) (omega arith)
            small
            (start words e (num_engines input) he fits (λ k. n - 1 < k) (λ k h. omega arith))),
    )
