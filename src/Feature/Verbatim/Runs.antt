-- ===== src/Feature/Verbatim/Runs.antt =====
-- MEMT/Feature/Verbatim/Sentence.cc: the scores of all features after an extension.
use memt.Prelude.{
  ℕ, zero, suc, ◌+◌, ◌*◌, ◌-◌, ◌≤◌, ◌<◌, ◌≡◌, ◌∙◌, refl, ap, ltb, List, Bool, false, if◌then◌else◌,
  get_or, drop, length, length-append, length-drop, get_or-drop, arith,
}
use memt.Input.{Input, WordAlignments, Location, get_word}
use memt.Decoder.Score.{Doubles, LogScore}
use memt.Decoder.History.{History, entry_of}
use memt.Feature.Verbatim.{
  Config, feature_count, run_lengths, copy_some, individual_scores, collective_scores, add_one,
  extend_scores, extend,
}
use memt.Feature.Verbatim.Counts.{
  again, count_above, length-copy_some, get_or-copy_some, get_or_behind, get_or-append_left,
  length-individual_scores, get_or-individual_scores, length-collective_scores,
  get_or-collective_scores,
}

-- A feature: n-grams of n + 1 words of one engine, or longer ones of any engine.
pub data Feature : Type 0 where
  of_engine : ℕ → ℕ → Feature
  of_any : ℕ → Feature

-- Where the score of a feature stands.
unfoldable pub position : Config → Feature → ℕ
position c (of_engine e n) = e * c.individual + n
position c (of_any n) = c.num_systems * c.individual + (n - c.individual)

unfoldable pub IsFeature : Config → Feature → Type 0
IsFeature c (of_engine e n) = (e < c.num_systems) × (n < c.individual)
IsFeature c (of_any n) = (c.individual ≤ n) × (n < c.collective)

-- How many n-grams of that length end at the word appended.
unfoldable pub gain : List ℕ → Feature → ℕ
gain runs (of_engine e n) = if ltb n (get_or runs e 0) then 1 else 0
gain runs (of_any n) = count_above n runs

pub length-run_lengths :
    (n mask : ℕ) (previous current : WordAlignments) (from : List ℕ) (e : ℕ)
    → length (run_lengths n mask previous current from e) ≡ n
unfolding run_lengths
length-run_lengths zero mask previous current from e = refl
length-run_lengths (suc n) mask previous current from e =
    ap suc (length-run_lengths n mask previous current from (e + 1))

ltb_zero : (n : ℕ) → ltb n 0 ≡ false
ltb_zero n = ground arith

index_below : (e rows n width : ℕ) → e < rows → n < width → e * width + n < rows * width
index_below e zero n width h k = absurd (omega arith)
index_below zero (suc rows) n width h k = omega arith
index_below (suc e) (suc rows) n width h k =
    omega (arith, index_below e rows n width (omega arith) k)

module _ {ℓ} {D : Type ℓ} (double : Doubles D) (one : D) (c : Config) (blank : LogScore D)
    (wide : c.individual ≤ c.collective) where
  -- The collective scores before the loop that adds to them.
  abbrev behind : List (LogScore D) → List (LogScore D)
  behind from =
      copy_some (λ (s : LogScore D). s) 0 (c.collective - c.individual)
        (drop (c.num_systems * c.individual) from)

  length-behind :
      (from : List (LogScore D))
      → length from ≡ feature_count c
      → length (behind from) ≡ c.collective - c.individual
  length-behind from h =
      length-copy_some _ blank 0 (c.collective - c.individual)
        (drop (c.num_systems * c.individual) from)
        (omega (arith, wide, h, length-drop (c.num_systems * c.individual) from))

  get_or-behind :
      (from : List (LogScore D)) (j : ℕ)
      → length from ≡ feature_count c
      → j < c.collective - c.individual
      → get_or (behind from) j blank ≡ get_or from (c.num_systems * c.individual + j) blank
  unfolding again
  get_or-behind from j h k =
      let rest = drop (c.num_systems * c.individual) from in
      get_or-copy_some (λ (s : LogScore D). s) blank 0 (c.collective - c.individual) j rest
        (omega (arith, wide, h, length-drop (c.num_systems * c.individual) from)) k
      ∙ ap (λ (b : Bool). again (λ (s : LogScore D). s) (if b then 1 else 0) (get_or rest j blank))
          (ltb_zero j)
      ∙ get_or-drop (c.num_systems * c.individual) j from blank

  same_rows :
      (runs : List ℕ)
      → length runs ≡ c.num_systems
      → length runs * c.individual ≡ c.num_systems * c.individual
  same_rows runs h = ap (λ n. n * c.individual) h

  length-individuals :
      (runs : List ℕ) (from : List (LogScore D))
      → length runs ≡ c.num_systems
      → length from ≡ feature_count c
      → length (individual_scores (add_one double one c) c.individual runs from)
        ≡ c.num_systems * c.individual
  length-individuals runs from h k =
      length-individual_scores (add_one double one c) blank c.individual runs from
        (omega (arith, wide, k, same_rows runs h))
      ∙ same_rows runs h

  pub length-extend_scores :
      (runs : List ℕ) (from : List (LogScore D))
      → length runs ≡ c.num_systems
      → length from ≡ feature_count c
      → length (extend_scores double one c runs from) ≡ feature_count c
  unfolding extend_scores
  length-extend_scores runs from h k =
      length-append (individual_scores (add_one double one c) c.individual runs from)
        (collective_scores (add_one double one c) c.individual c.collective runs (behind from))
      ∙ omega (
        arith,
        wide,
        k,
        length-individuals runs from h k,
        length-collective_scores (add_one double one c) blank c.individual c.collective runs
            (behind from) (length-behind from k),
      )

  pub get_or-extend_scores :
      (runs : List ℕ) (from : List (LogScore D)) (f : Feature)
      → length runs ≡ c.num_systems
      → length from ≡ feature_count c
      → IsFeature c f
      → get_or (extend_scores double one c runs from) (position c f) blank
        ≡ again (add_one double one c) (gain runs f) (get_or from (position c f) blank)
  unfolding extend_scores position IsFeature gain
  get_or-extend_scores runs from (of_engine e n) h k l =
      get_or-append_left (add_one double one c) blank
        (individual_scores (add_one double one c) c.individual runs from) _ (e * c.individual + n)
        (omega (
          arith,
          length-individuals runs from h k,
          index_below e c.num_systems n c.individual l.0 l.1,
        ))
      ∙ get_or-individual_scores (add_one double one c) blank c.individual runs from e n
          (omega (arith, wide, k, same_rows runs h)) (omega (arith, h, l.0)) l.1
  get_or-extend_scores runs from (of_any n) h k l =
      get_or_behind (add_one double one c) blank
        (individual_scores (add_one double one c) c.individual runs from) _
        (c.num_systems * c.individual) (n - c.individual) (length-individuals runs from h k)
      ∙ get_or-collective_scores (add_one double one c) blank c.individual c.collective runs
          (behind from) (n - c.individual) (length-behind from k) (omega (arith, l.0, l.1))
      ∙ ap
          (λ i.
            again (add_one double one c) (count_above i runs)
              (get_or (behind from) (n - c.individual) blank))
          (omega (arith, l.0))
      ∙ ap (again (add_one double one c) (count_above n runs))
          (get_or-behind from (n - c.individual) k (omega (arith, l.0, l.1)))

  -- After an extension there is a score for each feature still, and each was added one to once for each
  -- n-gram of its length that ends at the word appended: for a feature of one engine when the run of
  -- aligned words in that engine is longer than n, for a feature of any engine once for each such run.
  pub get_or-extend :
      (input : Input) (history : History D) (append : Location) (state : List ℕ)
      (from : List (LogScore D)) (f : Feature)
      → length from ≡ feature_count c
      → IsFeature c f
      → (length (extend double one c input history append state from).1 ≡ feature_count c)
        × (get_or (extend double one c input history append state from).1 (position c f) blank
            ≡ again
                (add_one double one c)
                (gain (extend double one c input history append state from).0 f)
                (get_or from (position c f) blank))
  unfolding extend
  get_or-extend input history append state from f h k =
      let previous =
        (get_word input (entry_of history).engine (entry_of history).offset).alignments in
      let current = (get_word input append.engine append.offset).alignments in
      let runs = run_lengths c.num_systems c.mask previous current state 0 in
      let long = length-run_lengths c.num_systems c.mask previous current state 0 in
      (length-extend_scores runs from long h, get_or-extend_scores runs from f long h k)
