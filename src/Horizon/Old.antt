-- ===== src/Horizon/Old.antt =====
-- MEMT/Strategy/Horizon/Hypothesis.cc, EnforceOldConstraints: the engines that lag more than the
-- radius behind the farthest frontier are advanced, the hindmost first.
-- std::priority_queue leaves open which of several hindmost engines is on top: `top` chooses.
pub mod Queue
pub mod Advance
pub mod Invariant
pub mod Enforced
use memt.Prelude.{
  remove, is_empty, ℕ, zero, suc, ◌+◌, ◌-◌, ◌≤◌, ◌≡◌, Bool, true, false, List, [], ◌∷◌, Option,
  none, some, add32, ltb, leb, ◌==◌, if◌then◌else◌, length, get_or, set, max,
}
use memt.Input.{Engine, Input, engine_length, get_engine, num_engines}
use memt.Horizon.Coverage.{Coverage}
use memt.Horizon.Hypothesis.{Hypothesis, coverage_of, frontier_of, advance_skip_punctuation}

pub record OldState : Type 0 where
  pub inputs : Hypothesis
  pub queue : List ℕ
  pub max_frontier : ℕ

-- One round of the loop, for the engine `below` on top of the queue. Past the end of its sentence an
-- engine leaves the queue.
unfoldable pub old_step : Input → ℕ → OldState → OldState
old_step text below s =
    let engine = get_engine text below in
    let c = advance_skip_punctuation engine (coverage_of s.inputs below) in
    let past = leb (engine_length engine) c.frontier in
    record {
      inputs = set s.inputs below c;
      queue = if past then remove below s.queue else below ∷ remove below s.queue;
      max_frontier = if past then s.max_frontier else max s.max_frontier c.frontier;
    }

-- `for (i = 0; i < inputs_.size(); ++i)`: the farthest frontier, and the queue.
unfoldable pub farthest : Hypothesis → ℕ
farthest [] = 0
farthest (c ∷ h) = max c.frontier (farthest h)

unfoldable pub count_from : ℕ → Hypothesis → List ℕ
count_from i [] = []
count_from i (c ∷ h) = i ∷ count_from (suc i) h

unfoldable pub old_start : Hypothesis → OldState
unfolding farthest count_from
old_start h = record { inputs = h; queue = count_from 0 h; max_frontier = farthest h }

-- The rounds that the queue can still take.
unfoldable pub weight : Input → Hypothesis → List ℕ → ℕ
weight text h [] = 0
weight text h (i ∷ q) = suc (engine_length (get_engine text i) - frontier_of h i) + weight text h q

module _ (top : Hypothesis → List ℕ → ℕ) where
  -- `none` is a read of the top of an empty queue, or that the fuel ran out.
  unfoldable pub old_loop : ℕ → Input → ℕ → OldState → Option Hypothesis
  old_loop zero text radius s = none
  old_loop (suc fuel) text radius s =
      let below = top s.inputs s.queue in
      let rest = old_loop fuel text radius (old_step text below s) in
      if is_empty s.queue
      then none
      else if ltb (add32 (frontier_of s.inputs below) radius) s.max_frontier
      then rest
      else some s.inputs

  unfoldable pub enforce_old : Input → ℕ → Hypothesis → Option Hypothesis
  unfolding old_loop old_step old_start weight remove is_empty
  enforce_old text radius h =
      old_loop (suc (weight text h (old_start h).queue)) text radius (old_start h)
