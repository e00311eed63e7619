-- ===== src/Input/Closure/Reach.antt =====
-- CloseAlignment ends with the words that are reached over alignments, each and no other.
use mathlib.Core.Bool.{false≢true}
use memt.Prelude.{
  ℕ, zero, suc, ◌+◌, ◌≤◌, ◌<◌, ◌≡◌, ◌⊎◌, ◌↔◌, ◌∙◌, refl, sym, ap, subst, true, some, List, [], ◌∷◌,
  length, arith, inl, inr, Bool-cases,
}
use memt.Input.{Input, Location, ask, is_connection, num_engines}
use memt.Input.Closure.{
  eq_location, located, aligned_at, visit, alignments_of, close_loop, all_locations,
  close_alignment,
}
use memt.Input.Closure.Visit.{
  visit-IsVisited, unseen, visit-unseen-le, eq_location-true, split_located, there, located_here,
  apart,
}

-- The words that are reached over alignments from a word.
pub data Reach (text : Input) (start : Location) : Location → Type 0 where
  here : Reach text start start
  along :
      (m : Location) (e : ℕ)
      → Reach text start m
      → e < num_engines text
      → is_connection (ask (alignments_of text m) e) ≡ true
      → Reach text start (aligned_at (alignments_of text m) e)

-- Every alignment is to a word of a sentence.
abbrev pub AreInside : Input → List Location → Type 0
AreInside text all =
    (m : Location) (e : ℕ)
    → e < num_engines text
    → is_connection (ask (alignments_of text m) e) ≡ true
    → located (aligned_at (alignments_of text m) e) all ≡ true

-- What the loop keeps.
record Inv (text : Input) (start : Location) (opened seen : List Location) : Type 0 where
  started : located start seen ≡ true
  reached : (m : Location) → located m seen ≡ true → Reach text start m
  known : (m : Location) → located m opened ≡ true → located m seen ≡ true
  followed :
      (m : Location)
      → located m seen ≡ true
      → (located m opened ≡ true)
        ⊎ ((e : ℕ)
            → e < num_engines text
            → is_connection (ask (alignments_of text m) e) ≡ true
            → located (aligned_at (alignments_of text m) e) seen ≡ true)

module _ (text : Input) (start : Location) (all : List Location) (inside : AreInside text all) where
  -- All words are reached that are in the closure, and no other.
  abbrev Closes : List Location → Type 0
  Closes seen =
      (m : Location)
      → (located m seen ≡ true → Reach text start m) × (Reach text start m → located m seen ≡ true)

  ended : (seen : List Location) → Inv text start [] seen → Closes seen
  unfolding located
  ended seen v m = (v.reached m, reach m)
    where
      reach : (m : Location) → Reach text start m → located m seen ≡ true
      reach m here = v.started
      reach m (along k e r inside c) = elim (v.followed k (reach k r)) [
        | inl o ↦ absurd (false≢true o)
        | inr f ↦ f e inside c
      ]

  abbrev Followed : List Location → Location → Type 0
  Followed seen m =
      (e : ℕ)
      → e < num_engines text
      → is_connection (ask (alignments_of text m) e) ≡ true
      → located (aligned_at (alignments_of text m) e) seen ≡ true

  visited :
      (pos : Location) (opened seen : List Location)
      → Inv text start (pos ∷ opened) seen
      → Inv text start
          (visit (num_engines text) 0 (alignments_of text pos) opened seen).0
          (visit (num_engines text) 0 (alignments_of text pos) opened seen).1
  visited pos opened seen v =
      let al = alignments_of text pos in
      let w = visit-IsVisited (num_engines text) 0 al opened seen in
      record {
        started = w.grows start v.started;
        reached = λ m h. elim (w.aligned m h) [
          | inl old ↦ v.reached m old
          | inr (e, low, lt, c, same) ↦ subst (Reach text start) (sym same) (
              along pos e (v.reached pos (v.known pos (located_here pos pos opened refl)))
                (omega arith) c)
        ];
        known = λ m h. elim (w.opened_seen m h) [
          | inl o ↦ w.grows m (v.known m (there pos m opened o))
          | inr s ↦ s
        ];
        followed = λ m h. elim (w.seen_opened m h) [
          | inr o ↦ inl o
          | inl old ↦ elim (v.followed m old) [
            | inr f ↦ inr (λ e i c. w.grows _ (f e i c))
            | inl o ↦ elim (split_located m pos opened (apart pos m opened o)) [
              | inr later ↦ inl (w.opens m later)
              | inl new ↦ inr (
                  subst (Followed (visit (num_engines text) 0 al opened seen).1) (sym new)
                    (λ e i c. w.all e (omega arith) (omega arith) c))
            ]
          ]
        ];
      }

  close_loop-Closes :
      (fuel : ℕ) (opened seen : List Location)
      → Inv text start opened seen
      → length opened + unseen all seen < fuel
      → (closure : List Location) × (close_loop fuel text opened seen ≡ some closure)
        × Closes closure
  unfolding close_loop
  close_loop-Closes zero opened seen v h = absurd (omega arith)
  close_loop-Closes (suc fuel) [] seen v h = (seen, refl, ended seen v)
  close_loop-Closes (suc fuel) (pos ∷ opened) seen v h =
      close_loop-Closes fuel _ _ (visited pos opened seen v) (
        omega (
          arith,
          visit-unseen-le all (num_engines text) 0 (alignments_of text pos) opened seen
              (λ e k c. inside pos e (omega arith) c),
        ))

unseen-le : (all seen : List Location) → unseen all seen ≤ length all
unfolding unseen
unseen-le [] seen = omega arith
unseen-le (l ∷ all) seen = ground (arith, unseen-le all seen)

unseen-lt :
    (l : Location) (all seen : List Location)
    → located l all ≡ true
    → located l seen ≡ true
    → unseen all seen < length all
unfolding unseen located
unseen-lt l [] seen h k = absurd (false≢true h)
unseen-lt l (m ∷ all) seen h k = elim (Bool-cases (eq_location l m)) [
  | inl same ↦
      let found : located m seen ≡ true =
        sym (ap (λ x. located x seen) (eq_location-true l m same)) ∙ k in
      ground (arith, unseen-le all seen)
  | inr other ↦ ground (arith, unseen-lt l all seen)
]

start-Inv : (text : Input) (start : Location) → Inv text start (start ∷ []) (start ∷ [])
unfolding located
start-Inv text start =
    let self = located_here start start [] refl in
    record {
      started = self;
      reached = λ m h. elim (split_located m start [] (apart start m [] h)) [
        | inl same ↦ subst (Reach text start) (sym same) here
        | inr none_else ↦ absurd (none_located m none_else)
      ];
      known = λ m h. h;
      followed = λ m h. inl h;
    }
  where
    none_located : (m : Location) → located m [] ≡ true → ⊥
    none_located m h = absurd (false≢true h)

-- CloseAlignment of a word ends, whatever the alignments are, with exactly the words that are reached
-- from it over alignments. The conditions: the word is one of a sentence, and each alignment of a word
-- that is asked for is to a word of a sentence.
pub close_alignment-Reach :
    (text : Input) (start : Location)
    → located start (all_locations text) ≡ true
    → AreInside text (all_locations text)
    → (closure : List Location) × (close_alignment text start ≡ some closure)
      × ((m : Location) → (located m closure ≡ true) ↔ Reach text start m)
unfolding close_alignment
close_alignment-Reach text start own inside =
    let all = all_locations text in
    close_loop-Closes text start all inside (length all + 1) (start ∷ []) (start ∷ [])
      (start-Inv text start)
      (omega (arith, unseen-lt start all (start ∷ []) own (located_here start start [] refl)))
