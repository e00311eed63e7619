-- ===== src/Horizon/Old/Invariant.antt =====
-- What a round of EnforceOldConstraints keeps, and that it leaves fewer rounds.
use native.Mathlib.Decide.{ℕ_discrete, dec_lt}
use mathlib.Core.Bool.{false≢true}
use memt.Prelude.{
  remove, queued, distinct, distinct-remove, queued-remove, queued-remove_ne, ℕ, suc, ◌+◌, ◌-◌, ◌≤◌,
  ◌<◌, ◌≡◌, ◌≢◌, ap, sym, ◌∙◌, Bool, true, false, ◌∷◌, leb, ◌==◌, if◌then◌else◌, length, set, arith,
  inl, inr, ◌⊎◌, Bool-cases, word_mod, max, get_or-set, length-set, subst, ==_self,
}
use memt.Input.{Input, Engine, engine_length, get_engine}
use memt.Horizon.Coverage.{Coverage, initialize_root}
use memt.Horizon.Hypothesis.{coverage_of, frontier_of, advance_skip_punctuation}
use memt.Horizon.Old.{OldState, old_step, weight}
use memt.Horizon.Old.Queue.{weight-remove, weight_mono}
use memt.Horizon.Old.Advance.{IsSound, Moves, advance-Moves}

-- What the loop keeps: every engine is in the queue or past its end, and the farthest frontier is
-- that of an engine in the queue.
pub record Inv (text : Input) (n radius : ℕ) (s : OldState) : Type 0 where
  pub sized : length s.inputs ≡ n
  pub once : distinct s.queue ≡ true
  pub inside : (i : ℕ) → queued i s.queue ≡ true → i < n
  pub sound :
      (i : ℕ) → queued i s.queue ≡ true → IsSound (get_engine text i) (coverage_of s.inputs i)
  pub bounded : (i : ℕ) → queued i s.queue ≡ true → frontier_of s.inputs i ≤ s.max_frontier
  pub finished :
      (i : ℕ)
      → i < n
      → queued i s.queue ≡ false
      → engine_length (get_engine text i) ≤ frontier_of s.inputs i
  pub reached : (i : ℕ) × (queued i s.queue ≡ true) × (frontier_of s.inputs i ≡ s.max_frontier)
  pub small : s.max_frontier + radius < word_mod

-- The sentences and the radius fit.
abbrev pub Room : Input → ℕ → Type 0
Room text radius = (i : ℕ) → engine_length (get_engine text i) + radius + 1 < word_mod

module _ (text : Input) (n radius : ℕ) (room : Room text radius) (below : ℕ) (s : OldState)
    (v : Inv text n radius s) (on_top : queued below s.queue ≡ true)
    (lags : frontier_of s.inputs below + radius < s.max_frontier) where
  engine : Engine
  engine = get_engine text below

  moved : Coverage
  unfolding engine
  moved = advance_skip_punctuation engine (coverage_of s.inputs below)

  moves :
      Moves (get_engine text below) (omega (arith, room below)) (coverage_of s.inputs below) moved
  unfolding moved engine
  moves =
      advance-Moves (get_engine text below) (omega (arith, room below)) (coverage_of s.inputs below)
        (v.sound below on_top)

  at :
      (i : ℕ)
      → coverage_of (set s.inputs below moved) i
        ≡ (if below == i then moved else coverage_of s.inputs i)
  at i = get_or-set s.inputs below i moved initialize_root (rw v.sized (v.inside below on_top))

  forward : (i : ℕ) → frontier_of s.inputs i ≤ frontier_of (set s.inputs below moved) i
  forward i = ground (arith, at i, moves.0, ap (frontier_of s.inputs))

  abbrev past : Bool
  past = leb (engine_length (get_engine text below)) moved.frontier

  gone : queued below (remove below s.queue) ≡ false
  gone = (distinct-remove below s.queue v.once).1

  -- An engine that stays in the queue is another, and does not move.
  other : (i : ℕ) → queued i (remove below s.queue) ≡ true → below ≢ i
  other i q same = false≢true (sym gone ∙ ap (λ j. queued j (remove below s.queue)) same ∙ q)

  kept : (i : ℕ) → below ≢ i → coverage_of (set s.inputs below moved) i ≡ coverage_of s.inputs i
  kept i n = ground (arith, at i)

  kept_frontier :
      (i : ℕ) → below ≢ i → frontier_of (set s.inputs below moved) i ≡ frontier_of s.inputs i
  kept_frontier i n = ap (λ c. c.frontier) (kept i n)

  here : coverage_of (set s.inputs below moved) below ≡ moved
  here = ground (arith, at below)

  here_frontier : frontier_of (set s.inputs below moved) below ≡ moved.frontier
  here_frontier = ap (λ c. c.frontier) here

  not_queued :
      (i : ℕ) → below ≢ i → queued i (remove below s.queue) ≡ false → queued i s.queue ≡ false
  not_queued i n q = elim (Bool-cases (queued i s.queue)) [
    | inl t ↦ absurd (false≢true (sym q ∙ queued-remove_ne below i s.queue (λ x. n (sym x)) t))
    | inr f ↦ f
  ]

  stays :
      (i : ℕ)
      → queued i (below ∷ remove below s.queue) ≡ true
      → (below ≡ i) ⊎ ((below ≢ i) × (queued i s.queue ≡ true))
  unfolding queued
  stays i q = elim (ℕ_discrete below i) [
    | yes same ↦ inl same
    | no n ↦ inr (n, queued-remove below i s.queue (ground arith))
  ]

  stays_not :
      (i : ℕ)
      → queued i (below ∷ remove below s.queue) ≡ false
      → (below ≢ i) × (queued i s.queue ≡ false)
  unfolding queued
  stays_not i q = let n : below ≢ i = λ same. ground arith in (n, not_queued i n (ground arith))

  leave-finished :
      past ≡ true
      → (i : ℕ) → i < n
      → queued i (remove below s.queue) ≡ false
      → engine_length (get_engine text i) ≤ frontier_of (set s.inputs below moved) i
  leave-finished e i k q = elim (ℕ_discrete below i) [
    | yes same ↦
        subst (λ j. engine_length (get_engine text j) ≤ frontier_of (set s.inputs below moved) j)
          same (ground (arith, here_frontier, e))
    | no n ↦ omega (arith, kept_frontier i n, v.finished i k (not_queued i n q))
  ]

  -- The engine moves past the end of its sentence, and leaves the queue.
  leave-Inv :
      past ≡ true
      → Inv text n radius (record {
        inputs = set s.inputs below moved;
        queue = remove below s.queue;
        max_frontier = s.max_frontier;
      })
  leave-Inv e = record {
    sized = length-set s.inputs below moved ∙ v.sized;
    once = (distinct-remove below s.queue v.once).0;
    inside = λ i q. v.inside i (queued-remove below i s.queue q);
    sound = λ i q. rw (kept i (other i q)) (v.sound i (queued-remove below i s.queue q));
    bounded = λ i q.
        omega (arith, kept_frontier i (other i q), v.bounded i (queued-remove below i s.queue q));
    finished = λ i k q. leave-finished e i k q;
    reached =
        let (i, q, r) = v.reached in
        let n : below ≢ i = λ same. omega (arith, lags, ap (frontier_of s.inputs) same) in
        (i, queued-remove_ne below i s.queue (λ x. n (sym x)) q, kept_frontier i n ∙ r);
    small = v.small;
  }

  again : distinct (below ∷ remove below s.queue) ≡ true
  unfolding distinct
  again = ground (arith, gone, distinct-remove below s.queue v.once)

  stay-reached :
      (i : ℕ) × (queued i (below ∷ remove below s.queue) ≡ true)
      × (frontier_of (set s.inputs below moved) i ≡ max s.max_frontier moved.frontier)
  unfolding queued
  stay-reached = elim (dec_lt s.max_frontier moved.frontier) [
    | yes up ↦ (below, ground (arith, ==_self below), omega (arith, here_frontier))
    | no down ↦
        let (i, q, r) = v.reached in
        let n : below ≢ i = λ same. omega (arith, lags, ap (frontier_of s.inputs) same) in
        (
          i,
          ground (arith, queued-remove_ne below i s.queue (λ x. n (sym x)) q),
          omega (arith, kept_frontier i n),
        )
  ]

  stay-Inv :
      past ≡ false
      → Inv text n radius (record {
        inputs = set s.inputs below moved;
        queue = below ∷ remove below s.queue;
        max_frontier = max s.max_frontier moved.frontier;
      })
  stay-Inv e = record {
    sized = length-set s.inputs below moved ∙ v.sized;
    once = again;
    inside = λ i q. elim (stays i q) [
      | inl same ↦ subst (λ j. j < n) same (v.inside below on_top)
      | inr (m, was) ↦ v.inside i was
    ];
    sound = λ i q. elim (stays i q) [
      | inl same ↦
          subst (λ j. IsSound (get_engine text j) (coverage_of (set s.inputs below moved) j)) same
            (rw here (inl (moves.1 (ground arith))))
      | inr (m, was) ↦ rw (kept i m) (v.sound i was)
    ];
    bounded = λ i q. elim (stays i q) [
      | inl same ↦ omega (arith, here_frontier, ap (frontier_of (set s.inputs below moved)) same)
      | inr (m, was) ↦ omega (arith, kept_frontier i m, v.bounded i was)
    ];
    finished = λ i k q.
        let (m, was) = stays_not i q in omega (arith, kept_frontier i m, v.finished i k was);
    reached = stay-reached;
    small = ground (arith, v.small, room below, e);
  }

  pub step-Inv : Inv text n radius (old_step text below s)
  unfolding old_step moved engine
  step-Inv = elim (Bool-cases past) [ inl e ↦ rw e (leave-Inv e) | inr e ↦ rw e (stay-Inv e) ]

  pub step-forward : (i : ℕ) → frontier_of s.inputs i ≤ frontier_of (old_step text below s).inputs i
  unfolding old_step moved engine
  step-forward i = forward i

  abbrev left : ℕ
  left = engine_length (get_engine text below)

  stay-weight :
      past ≡ false
      → weight text s.inputs s.queue
        ≡ suc (left - frontier_of s.inputs below) + weight text s.inputs (remove below s.queue)
      → weight text (set s.inputs below moved) (remove below s.queue)
        ≤ weight text s.inputs (remove below s.queue)
      → suc (weight text (set s.inputs below moved) (below ∷ remove below s.queue))
        ≤ weight text s.inputs s.queue
  unfolding weight
  stay-weight e b a = ground (arith, here_frontier, moves.0)

  pub step-weight :
      suc (weight text (old_step text below s).inputs (old_step text below s).queue)
      ≤ weight text s.inputs s.queue
  unfolding old_step moved engine
  step-weight =
      let before = weight-remove text s.inputs below s.queue on_top in
      let after =
        weight_mono text s.inputs (set s.inputs below moved) (remove below s.queue) forward in
      elim (Bool-cases past) [
        | inl e ↦ rw e (omega (arith, before, after))
        | inr e ↦ rw e (stay-weight e before after)
      ]
