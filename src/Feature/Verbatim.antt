-- ===== src/Feature/Verbatim.antt =====
-- MEMT/Feature/Verbatim: how many n-grams of each engine's translation a hypothesis has taken verbatim.
-- The state is, for each engine, how many words before were aligned to consecutive words of it.
pub mod Counts
pub mod Runs
pub mod Matches
pub mod Whole
use memt.Prelude.{
  ℕ, zero, suc, ◌+◌, ◌*◌, ◌-◌, ◌^◌, ◌%◌, min, ◌==◌, ltb, leb, Bool, true, false, not, ◌&&◌, List,
  [], ◌∷◌, ◌++◌, if◌then◌else◌, get_or, drop, replicate, resize, add32, any_bit,
}
use memt.Input.{Input, AlignmentInfo, WordAlignments, ask, Location, get_word}
use memt.Decoder.Score.{Doubles, LogScore}
use memt.Decoder.History.{History, entry_of}

pub record Config : Type 0 where
  pub num_systems : ℕ
  pub individual : ℕ
  pub collective : ℕ
  pub mask : ℕ

-- FeatureCount; collective is at least individual.
abbrev pub feature_count : Config → ℕ
feature_count c = c.num_systems * c.individual + c.collective - c.individual

-- The beginning of sentence counts for one word.
abbrev pub begin_state : Config → List ℕ
begin_state c = replicate c.num_systems 1

-- The length of the run of aligned words in one engine, a size_t.
unfoldable pub run_length : ℕ → AlignmentInfo → AlignmentInfo → ℕ → ℕ
run_length mask pre cur from =
    if any_bit pre.type mask && any_bit cur.type mask && add32 pre.offset 1 == cur.offset
    then (from + 1) % 2 ^ 64
    else if any_bit cur.type mask
    then 1
    else 0

-- The loop on the engines from the given one on.
unfoldable pub run_lengths : ℕ → ℕ → WordAlignments → WordAlignments → List ℕ → ℕ → List ℕ
unfolding run_length
run_lengths zero mask previous current from e = []
run_lengths (suc rounds) mask previous current from e =
    run_length mask (ask previous e) (ask current e) (get_or from e 0)
    ∷ run_lengths rounds mask previous current from (e + 1)

-- A copy of so many scores, the first of which are changed.
unfoldable pub copy_some {ℓ} : {A : Type ℓ} → (A → A) → ℕ → ℕ → List A → List A
copy_some add n zero from = []
copy_some add n (suc rounds) [] = []
copy_some add zero (suc rounds) (s ∷ from) = s ∷ copy_some add 0 rounds from
copy_some add (suc n) (suc rounds) (s ∷ from) = add s ∷ copy_some add n rounds from

-- The individual scores of the engines with the given runs, one engine after the other.
unfoldable pub individual_scores {ℓ} : {A : Type ℓ} → (A → A) → ℕ → List ℕ → List A → List A
unfolding copy_some
individual_scores add individual [] from = []
individual_scores add individual (run ∷ runs) from =
    copy_some add (min run individual) individual from
    ++ individual_scores add individual runs (drop individual from)

-- What one engine's run adds to the collective scores.
abbrev pub engine_scores {ℓ} : {A : Type ℓ} → (A → A) → ℕ → ℕ → ℕ → List A → List A
engine_scores add individual collective run scores =
    if ltb run individual
    then scores
    else copy_some add (min run collective - individual) (collective - individual) scores

-- The loop on the engines that adds to the collective scores.
unfoldable pub collective_scores {ℓ} : {A : Type ℓ} → (A → A) → ℕ → ℕ → List ℕ → List A → List A
collective_scores add individual collective [] scores = scores
collective_scores add individual collective (run ∷ runs) scores =
    collective_scores add individual collective runs
      (engine_scores add individual collective run scores)

-- The start scores, SetLog(0.0).
abbrev pub begin_scores {ℓ} : {D : Type ℓ} → D → Config → List (LogScore D)
begin_scores zero_log c = replicate (feature_count c) (record { log_value = zero_log })

module _ {ℓ} {D : Type ℓ} (double : Doubles D) (one : D) (c : Config) where
  -- SetLog(Log() + 1.0)
  abbrev pub add_one : LogScore D → LogScore D
  add_one s = record { log_value = double.plus s.log_value one }

  unfoldable pub extend_scores : List ℕ → List (LogScore D) → List (LogScore D)
  unfolding individual_scores collective_scores
  extend_scores runs from =
      individual_scores add_one c.individual runs from
      ++ collective_scores add_one c.individual c.collective runs (
          copy_some (λ (s : LogScore D). s) 0 (c.collective - c.individual)
            (drop (c.num_systems * c.individual) from))

  -- Extend
  unfoldable pub extend :
      Input → History D → Location → List ℕ → List (LogScore D) → List ℕ × List (LogScore D)
  unfolding run_lengths extend_scores
  extend input history append from_state from_scores =
      let previous =
        (get_word input (entry_of history).engine (entry_of history).offset).alignments in
      let current = (get_word input append.engine append.offset).alignments in
      let to_state = run_lengths c.num_systems c.mask previous current from_state 0 in
      (to_state, extend_scores to_state from_scores)
