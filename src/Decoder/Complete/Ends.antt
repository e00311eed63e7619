-- ===== src/Decoder/Complete/Ends.antt =====
-- The loop of Completed ends: it has all sentences that are asked for, or no path is left.
use mathlib.Core.Bool.{false≢true}
use memt.Prelude.{
  length-append, sub32, word_mod, ◌-◌, ℕ, zero, suc, ◌+◌, ◌≤◌, ◌<◌, ◌≡◌, ◌∙◌, refl, ap, subst, Bool,
  true, List, [], ◌∷◌, ◌==◌, arith, inl, inr, Bool-cases, length, queued, ◌⊎◌, get_or,
}
use memt.Beam.Keeps.{Each}
use memt.Decoder.Score.{Doubles}
use memt.Decoder.Depth.{Deep, is_deep, each_deep}
use memt.Decoder.Hypothesis.{EndingHypothesis}
use memt.Decoder.History.{History, node, before, no_more, previous_of}
use memt.Decoder.Complete.{
  nothing_completed, of_ending, queue_endings, count_histories, PartialHistory, Completion,
  remove_at, complete_one, completed_loop,
}
use memt.Decoder.Complete.Loop.{IsReady, IsCompletion, complete_one-IsCompleted}

module _ {ℓ n} {A : Type ℓ} (Good : A → Type n) where
  Each-remove_at : (i : ℕ) (xs : List A) → Each Good xs → Each Good (remove_at i xs)
  unfolding remove_at
  Each-remove_at i [] e = e
  Each-remove_at zero (x ∷ xs) (g, e) = e
  Each-remove_at (suc i) (x ∷ xs) (g, e) = (g, Each-remove_at i xs e)

  Each-get_or : (i : ℕ) (xs : List A) (d : A) → Each Good xs → Good d → Good (get_or xs i d)
  Each-get_or i [] d e g = g
  Each-get_or zero (x ∷ xs) d (h, e) g = h
  Each-get_or (suc i) (x ∷ xs) d (h, e) g = Each-get_or i xs d e g

list_cases {ℓ} :
    {A : Type ℓ} (xs : List A) → (xs ≡ []) ⊎ ((x : A) × (rest : List A) × (xs ≡ x ∷ rest))
list_cases [] = inl refl
list_cases (x ∷ xs) = inr (x, xs, refl)

less_one : (n : ℕ) → 1 < n → n < word_mod → sub32 n 1 ≡ n - 1
less_one n two small = omega arith

Deep-before {ℓ} :
    {D : Type ℓ} (h : History D) (n : ℕ)
    → Deep n h
    → 1 < n
    → (0 < count_histories (previous_of h)) × (each_deep (previous_of h) (n - 1) ≡ true)
unfolding is_deep count_histories
Deep-before h zero d two = absurd (omega arith)
Deep-before h (suc zero) d two = absurd (omega arith)
Deep-before (node entry no_more hash) (suc (suc n)) d two = absurd (false≢true d)
Deep-before (node entry (before p rest) hash) (suc (suc n)) d two =
    (omega arith, subst (λ k. each_deep (before p rest) k ≡ true) (omega arith) d)

module _ {ℓ} {D : Type ℓ} (double : Doubles D) (combine : ℕ → ℕ → ℕ) (normalize : Bool)
    (top_of : List (PartialHistory D) → ℕ) where
  -- No path is left, or as many hypotheses are finished as were asked for, and never more.
  abbrev pub HasEnded : ℕ → Completion D → Type ℓ
  HasEnded number c =
      ((c.delayed ≡ []) ⊎ (length c.finished ≡ number)) × (length c.finished ≤ number)

  completed_loop-HasEnded :
      (fuel number : ℕ) (c : Completion D)
      → IsCompletion c
      → length c.finished + fuel ≡ number
      → 0 < fuel
      → HasEnded number (completed_loop double combine normalize top_of fuel number c)
  unfolding completed_loop
  completed_loop-HasEnded zero number c v e pos = absurd (omega arith)
  completed_loop-HasEnded (suc fuel) number c v e pos = elim (list_cases c.delayed) [
    | inl none_left ↦ rw (completed_loop, none_left) (inl none_left, omega arith)
    | inr (first, others, some_left) ↦
        let queue = first ∷ others in
        let (good, all) = subst (Each (λ (p : PartialHistory D). IsReady p)) some_left v.ready in
        let i = top_of queue in
        let next =
          (complete_one double combine normalize (get_or queue i first) (remove_at i queue) c).0 in
        let step =
          complete_one-IsCompleted double combine normalize (get_or queue i first)
            (remove_at i queue) c
            (Each-get_or (λ (p : PartialHistory D). IsReady p) i queue first (good, all) good)
            (Each-remove_at (λ (p : PartialHistory D). IsReady p) i queue (good, all)) v.old in
        let one_more : length next.finished ≡ length c.finished + 1 =
          ap length step.appended ∙ length-append c.finished (step.new ∷ []) in
        elim (Bool-cases (length next.finished == number)) [
          | inl full ↦
              rw (completed_loop, some_left, step.added, full) (inr (ground arith), ground arith)
          | inr more ↦
              let left : 0 < fuel = ground (arith, one_more) in
              rw (completed_loop, some_left, step.added, more)
                (completed_loop-HasEnded fuel number next step.rest (omega (arith, one_more)) left)
        ]
  ]

  -- An ending hypothesis of so many words, two at least, each way to the beginning of the sentence.
  abbrev pub IsEnding : EndingHypothesis D → Type 0
  IsEnding e = Deep e.length e.history × (1 < e.length) × (e.length < word_mod)

  of_ending-IsReady :
      (address : ℕ) (e : EndingHypothesis D)
      → IsEnding e
      → IsReady (of_ending double combine normalize address e)
  unfolding of_ending
  of_ending-IsReady address e (deep, two, small) = record {
    words_before = omega (arith, less_one e.length two small);
    packs = (Deep-before e.history e.length deep two).0;
    deep = rw (less_one e.length two small) (Deep-before e.history e.length deep two).1;
    long = refl;
  }

  queue_endings-IsCompletion :
      (es : List (EndingHypothesis D)) (c : Completion D)
      → Each IsEnding es
      → IsCompletion c
      → IsCompletion (queue_endings double combine normalize top_of es c)
        × ((queue_endings double combine normalize top_of es c).finished ≡ c.finished)
  unfolding queue_endings
  queue_endings-IsCompletion [] c each v = (v, refl)
  queue_endings-IsCompletion (e ∷ es) c (good, each) v =
      queue_endings-IsCompletion es _ each (record {
        ready = (of_ending-IsReady c.next_address e good, v.ready);
        old = λ a q. omega (arith, v.old a q);
      })

  -- The completion of ending hypotheses of two words at least, whose histories are as long as they say,
  -- comes to an end after so many rounds as hypotheses are asked for, which is at least one: then no path
  -- is left, or as many hypotheses are finished as were asked for, and never are there more. No length
  -- is 2 ^ 32 or more.
  pub completed_loop-ends :
      (number : ℕ) (es : List (EndingHypothesis D))
      → 0 < number
      → Each IsEnding es
      → HasEnded number (
          completed_loop double combine normalize top_of number number (
            queue_endings double combine normalize top_of es
              (nothing_completed double combine normalize top_of)))
  unfolding queued
  completed_loop-ends number es pos each =
      let (v, none_yet) =
        queue_endings-IsCompletion es (nothing_completed double combine normalize top_of) each
          (record { ready = tt; old = λ a q. absurd (false≢true q) }) in
      completed_loop-HasEnded number number _ v (omega (arith, ap length none_yet)) pos
