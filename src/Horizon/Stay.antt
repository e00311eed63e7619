-- ===== src/Horizon/Stay.antt =====
-- MEMT/Strategy/Horizon/Hypothesis.cc, EnforceNewConstraints: an engine stays at its frontier as long
-- as the weights of the engines whose own frontier word is near enough hold it there. LinearScore, a
-- floating-point type, is a parameter.
use memt.Prelude.{
  ℕ, zero, suc, Bool, true, false, Option, none, some, List, [], ◌∷◌, leb, if◌then◌else◌, get_or,
  set, modify, replicate,
}
use memt.Input.{Input, engine_length, get_engine, num_engines}
use memt.Horizon.Window.{Range}
use memt.Horizon.Hypothesis.{Hypothesis, coverage_of, frontier_of, advance_skip_punctuation}

-- LinearScore and what is done with it.
pub record Linear {ℓ} (S : Type ℓ) : Type ℓ where
  pub nothing : S
  pub infinity : S
  pub plus : S → S → S
  pub minus : S → S → S
  pub below : S → S → Bool

-- The ranges of each word of each system, in each system.
abbrev pub Windows : Type 0
Windows = List (List (List Range))

abbrev pub start_at : Windows → ℕ → ℕ → ℕ → ℕ
start_at windows e offset o =
    (get_or (get_or (get_or windows e []) offset []) o (record { start = 0; end = 0 })).start

pub record StayState {ℓ} (S : Type ℓ) : Type ℓ where
  pub stay : List S
  pub min_stay : S
  pub inputs : Hypothesis

module _ {ℓ} {S : Type ℓ} (score : Linear S) (weights : List S) (text : Input)
    (windows : Windows) where
  abbrev weight_of : ℕ → S
  weight_of e = get_or weights e score.nothing

  abbrev is_past : Hypothesis → ℕ → Bool
  is_past h e = leb (engine_length (get_engine text e)) (frontier_of h e)

  -- For each engine `o` from `o` on, `rounds` of them: the weight of `e` is added if its word is near.
  unfoldable pub add_stay : ℕ → ℕ → Hypothesis → ℕ → List S → List S
  add_stay zero o h e stay = stay
  add_stay (suc rounds) o h e stay = add_stay rounds (suc o) h e (
      if leb (start_at windows e (frontier_of h e) o) (frontier_of h o)
      then modify (λ s. score.plus s (weight_of e)) o stay
      else stay)

  -- The first loop at engine `e`; the flag says that it returned.
  unfoldable pub sum_stay : ℕ → ℕ → StayState S → StayState S × Bool
  unfolding add_stay
  sum_stay zero e s = (s, false)
  sum_stay (suc rounds) e s =
      let less_stay = score.minus s.min_stay (weight_of e) in
      let past = record s { stay = set s.stay e score.infinity; min_stay = less_stay } in
      let on_past = sum_stay rounds (suc e) past in
      let on_near =
        sum_stay rounds (suc e)
          (record s { stay = add_stay (num_engines text) 0 s.inputs e s.stay }) in
      if is_past s.inputs e
      then (if score.below less_stay score.nothing then (past, true) else on_past)
      else on_near

  -- std::min_element: the first of the lowest.
  unfoldable pub lowest_from : ℕ → ℕ → S → List S → ℕ
  lowest_from i best least [] = best
  lowest_from i best least (s ∷ stay) =
      if score.below s least
      then lowest_from (suc i) i s stay
      else lowest_from (suc i) best least stay

  unfoldable pub min_element : List S → ℕ
  unfolding lowest_from
  min_element [] = 0
  min_element (s ∷ stay) = lowest_from 1 0 s stay

  -- The weight of `e` is taken back, where its word is near its own frontier.
  unfoldable pub subtract_stay : ℕ → ℕ → ℕ → ℕ → List S → List S
  subtract_stay zero o frontier e stay = stay
  subtract_stay (suc rounds) o frontier e stay = subtract_stay rounds (suc o) frontier e (
      if leb (start_at windows e frontier o) frontier
      then modify (λ s. score.minus s (weight_of e)) o stay
      else stay)

  -- After `e` has moved: what holds it, and whom it holds.
  unfoldable pub again_stay : ℕ → ℕ → Hypothesis → ℕ → S → List S → List S × S
  again_stay zero o h e staying stay = (stay, staying)
  again_stay (suc rounds) o h e staying stay =
      let held = leb (start_at windows o (frontier_of h o) e) (frontier_of h e) in
      let holds = leb (start_at windows e (frontier_of h e) o) (frontier_of h o) in
      if is_past h o
      then again_stay rounds (suc o) h e staying stay
      else again_stay rounds (suc o) h e
          (if held then score.plus staying (weight_of o) else staying)
          (if holds then modify (λ s. score.plus s (weight_of e)) o stay else stay)

  -- One round of the loop, for the engine `e` that is held least.
  unfoldable pub stay_step : ℕ → StayState S → StayState S
  unfolding subtract_stay again_stay
  stay_step e s =
      let c = coverage_of s.inputs e in
      let subtracted = subtract_stay (num_engines text) 0 c.frontier e s.stay in
      let h = set s.inputs e (advance_skip_punctuation (get_engine text e) c) in
      let (stay, staying) = again_stay (num_engines text) 0 h e score.nothing subtracted in
      if is_past h e
      then record {
        stay = set subtracted e score.infinity;
        min_stay = score.minus s.min_stay (weight_of e);
        inputs = h;
      }
      else record { stay = set stay e staying; min_stay = s.min_stay; inputs = h }

  -- `none` means that the fuel ran out.
  unfoldable pub stay_loop : ℕ → StayState S → Option Hypothesis
  unfolding stay_step min_element
  stay_loop zero s = none
  stay_loop (suc fuel) s =
      let e = min_element s.stay in
      let rest = stay_loop fuel (stay_step e s) in
      if score.below (get_or s.stay e score.nothing) s.min_stay then rest else some s.inputs

  -- EnforceNewConstraints, from the threshold of the configuration.
  unfoldable pub enforce_new : ℕ → S → Hypothesis → Option Hypothesis
  unfolding sum_stay stay_loop
  enforce_new fuel threshold h =
      let (s, returned) = sum_stay (num_engines text) 0 (record {
        stay = replicate (num_engines text) score.nothing;
        min_stay = threshold;
        inputs = h;
      }) in
      let rest = stay_loop fuel s in if returned then some h else rest
