-- ===== src/Horizon/Old/Queue.antt =====
-- The queue of EnforceOldConstraints: its engines, and the rounds that they can still take.
use native.Mathlib.Decide.{ℕ_discrete, dec_le}
use mathlib.Core.Bool.{false≢true}
use memt.Prelude.{
  remove, queued, distinct, ℕ, zero, suc, ◌+◌, ◌-◌, ◌≤◌, ◌<◌, ◌≡◌, refl, true, List, [], ◌∷◌,
  length, arith, ◌↔◌, ==_self,
}
use memt.Input.{Input, engine_length, get_engine}
use memt.Horizon.Hypothesis.{Hypothesis, frontier_of}
use memt.Horizon.Old.{weight, farthest, count_from}

pub queued-count_from :
    (i j : ℕ) (h : Hypothesis) → (queued j (count_from i h) ≡ true) ↔ ((i ≤ j) × (j < i + length h))
unfolding queued count_from
queued-count_from i j [] = (λ h. absurd (false≢true h), λ h. absurd (omega arith))
queued-count_from i j (c ∷ h) =
    let ih = queued-count_from (suc i) j h in (λ k. ground (arith, ih.0), λ k. ground (arith, ih.1))

pub distinct-count_from : (i : ℕ) (h : Hypothesis) → distinct (count_from i h) ≡ true
unfolding distinct count_from
distinct-count_from i [] = refl
distinct-count_from i (c ∷ h) =
    ground (arith, distinct-count_from (suc i) h, (queued-count_from (suc i) i h).0)

pub weight-remove :
    (text : Input) (h : Hypothesis) (i : ℕ) (q : List ℕ)
    → queued i q ≡ true
    → weight text h q
      ≡ suc (engine_length (get_engine text i) - frontier_of h i) + weight text h (remove i q)
unfolding queued remove weight
weight-remove text h i [] k = absurd (false≢true k)
weight-remove text h i (j ∷ q) k = elim (ℕ_discrete i j) [
  | yes same ↦ rw same (rw ==_self refl)
  | no other ↦ ground (arith, weight-remove text h i q)
]

-- Frontiers that move on leave no more rounds.
pub weight_mono :
    (text : Input) (h h' : Hypothesis) (q : List ℕ)
    → ((i : ℕ) → frontier_of h i ≤ frontier_of h' i)
    → weight text h' q ≤ weight text h q
unfolding weight
weight_mono text h h' [] f = omega arith
weight_mono text h h' (i ∷ q) f = omega (arith, f i, weight_mono text h h' q f)

pub farthest-le : (h : Hypothesis) (i : ℕ) → i < length h → frontier_of h i ≤ farthest h
unfolding farthest
farthest-le [] i k = absurd (omega arith)
farthest-le (c ∷ h) zero k = omega arith
farthest-le (c ∷ h) (suc i) k = omega (arith, farthest-le h i)

-- Some engine is at the farthest frontier.
pub farthest_reached :
    (h : Hypothesis) → 0 < length h → (i : ℕ) × (i < length h) × (frontier_of h i ≡ farthest h)
unfolding farthest
farthest_reached [] k = absurd (omega arith)
farthest_reached (c ∷ []) k = (0, omega arith, omega arith)
farthest_reached (c ∷ d ∷ h) k =
    let (i, inside, e) = farthest_reached (d ∷ h) (omega arith) in
    elim (dec_le (farthest (d ∷ h)) c.frontier) [
      | yes le ↦ (0, omega arith, omega arith)
      | no gt ↦ (suc i, omega arith, omega arith)
    ]
