-- ===== src/Horizon/Old/Enforced.antt =====
-- EnforceOldConstraints ends, never reads the top of an empty queue, and leaves no two unfinished
-- engines farther apart than the radius.
use mathlib.Core.Bool.{false≢true}
use memt.Prelude.{
  queued, queued-is_empty, ℕ, zero, suc, ◌+◌, ◌≤◌, ◌<◌, ◌≡◌, refl, sym, ◌∙◌, true, List, some, ltb,
  length, arith, inl, inr, Bool-cases, word_mod, add32, add32_exact,
}
use memt.Input.{Input, engine_length, get_engine}
use memt.Horizon.Hypothesis.{Hypothesis, coverage_of, frontier_of}
use memt.Horizon.Old.{
  OldState, old_step, old_start, old_loop, enforce_old, weight, farthest, count_from,
}
use memt.Horizon.Old.Queue.{distinct-count_from, queued-count_from, farthest-le, farthest_reached}
use memt.Horizon.Old.Advance.{IsSound}
use memt.Horizon.Old.Invariant.{Inv, Room, step-Inv, step-weight, step-forward}

-- The documented promise of std::priority_queue: the top is in the queue, and no engine of the queue
-- is behind it.
abbrev pub IsTop : (Hypothesis → List ℕ → ℕ) → Type 0
IsTop top =
    (h : Hypothesis) (q : List ℕ) (i : ℕ)
    → queued i q ≡ true
    → (queued (top h q) q ≡ true) × (frontier_of h (top h q) ≤ frontier_of h i)

-- No two of the `n` engines that have words left are farther apart than the radius.
abbrev pub IsWithin : Input → ℕ → ℕ → Hypothesis → Type 0
IsWithin text n radius h =
    (i j : ℕ)
    → i < n
    → j < n
    → frontier_of h i < engine_length (get_engine text i)
    → frontier_of h j < engine_length (get_engine text j)
    → frontier_of h j ≤ frontier_of h i + radius

module _ (top : Hypothesis → List ℕ → ℕ) (is_top : IsTop top) (text : Input) (n radius : ℕ)
    (room : Room text radius) where
  unfinished :
      (s : OldState)
      → Inv text n radius s
      → (i : ℕ) → i < n
      → frontier_of s.inputs i < engine_length (get_engine text i)
      → queued i s.queue ≡ true
  unfinished s v i k l = elim (Bool-cases (queued i s.queue)) [
    | inl t ↦ t
    | inr f ↦ absurd (omega (arith, v.finished i k f))
  ]

  stops :
      (s : OldState)
      → Inv text n radius s
      → (below : ℕ)
      → ((i : ℕ) → queued i s.queue ≡ true → frontier_of s.inputs below ≤ frontier_of s.inputs i)
      → s.max_frontier ≤ frontier_of s.inputs below + radius
      → IsWithin text n radius s.inputs
  stops s v below least near i j k l a b =
      omega (arith, least i (unfinished s v i k a), v.bounded j (unfinished s v j l b))

  start :
      (h : Hypothesis)
      → 0 < length h
      → length h ≡ n
      → ((i : ℕ) → i < n → IsSound (get_engine text i) (coverage_of h i))
      → farthest h + radius < word_mod
      → Inv text n radius (old_start h)
  unfolding old_start
  start h k sized sound small =
      let inside : (i : ℕ) → queued i (count_from 0 h) ≡ true → i < n =
        λ i q. omega (arith, ((queued-count_from 0 i h).0 q).1) in
      record {
        sized = sized;
        once = distinct-count_from 0 h;
        inside = inside;
        sound = λ i q. sound i (inside i q);
        bounded = λ i q. farthest-le h i (omega (arith, inside i q));
        finished = λ i l q.
            absurd (false≢true (sym q ∙ (queued-count_from 0 i h).1 (omega arith, omega arith)));
        reached =
            let (i, l, e) = farthest_reached h k in
            (i, (queued-count_from 0 i h).1 (omega arith, omega arith), e);
        small = small;
      }

  -- The result of the loop from a state with enough fuel.
  abbrev Ends : ℕ → OldState → Type 0
  Ends fuel s =
      (h : Hypothesis) × (old_loop top fuel text radius s ≡ some h)
      × (length h ≡ n)
      × IsWithin text n radius h
      × ((i : ℕ) → frontier_of s.inputs i ≤ frontier_of h i)

  carry :
      (fuel : ℕ) (s : OldState) (below : ℕ)
      → ((i : ℕ) → frontier_of s.inputs i ≤ frontier_of (old_step text below s).inputs i)
      → Ends fuel (old_step text below s)
      → (h : Hypothesis) × (old_loop top fuel text radius (old_step text below s) ≡ some h)
        × (length h ≡ n)
        × IsWithin text n radius h
        × ((i : ℕ) → frontier_of s.inputs i ≤ frontier_of h i)
  carry fuel s below f (h, out, sized, within, on) =
      (h, out, sized, within, λ i. omega (arith, f i, on i))

  old_loop-Ends :
      (fuel : ℕ) (s : OldState)
      → Inv text n radius s
      → weight text s.inputs s.queue < fuel
      → Ends fuel s
  unfolding old_loop
  old_loop-Ends zero s v w = absurd (omega arith)
  old_loop-Ends (suc fuel) s v w =
      let (far, q, r) = v.reached in
      let t = is_top s.inputs s.queue far q in
      let below = top s.inputs s.queue in
      let exact : add32 (frontier_of s.inputs below) radius ≡ frontier_of s.inputs below + radius =
        add32_exact _ _ (omega (arith, v.small, v.bounded below t.0)) in
      rw (queued-is_empty far s.queue q, exact)
        (elim (Bool-cases (ltb (frontier_of s.inputs below + radius) s.max_frontier)) [
          | inl e ↦ rw e (
              carry fuel s below (step-forward text n radius room below s v t.0 (ground arith)) (
                old_loop-Ends fuel (old_step text below s)
                  (step-Inv text n radius room below s v t.0 (ground arith))
                  (omega (arith, step-weight text n radius room below s v t.0 (ground arith)))))
          | inr e ↦ rw e (
            s.inputs,
            refl,
            v.sized,
            stops s v below (λ i k. (is_top s.inputs s.queue i k).1) (ground arith),
            λ i. omega arith,
          )
        ])

  -- EnforceOldConstraints ends, without a read of an empty queue, whichever hindmost engine the queue
  -- puts on top. No two engines that have words left are then farther apart than the radius, and no
  -- frontier has moved back. The conditions: there is an engine, every coverage is one of its
  -- sentence or past the end of it, and the frontiers and lengths with the radius fit in the words of
  -- the machine.
  pub enforce_old-IsWithin :
      (h : Hypothesis)
      → 0 < length h
      → length h ≡ n
      → ((i : ℕ) → i < n → IsSound (get_engine text i) (coverage_of h i))
      → farthest h + radius < word_mod
      → (h' : Hypothesis) × (enforce_old top text radius h ≡ some h')
        × (length h' ≡ n)
        × IsWithin text n radius h'
        × ((i : ℕ) → frontier_of h i ≤ frontier_of h' i)
  unfolding enforce_old old_start
  enforce_old-IsWithin h engines sized sound small =
      old_loop-Ends (suc (weight text h (old_start h).queue)) (old_start h)
        (start h engines sized sound small) (omega arith)
