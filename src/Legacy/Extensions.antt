-- ===== src/Legacy/Extensions.antt =====
-- Which words GetExtensions offers: the next words of all engines that have some left, and no word that
-- is used, where aligned words are not offered.
use native.Mathlib.Decide.{ℕ_discrete}
use mathlib.Core.Bool.{false≢true}
use memt.Prelude.{
  ℕ, zero, suc, ◌+◌, ◌≤◌, ◌<◌, ◌≡◌, ◌∙◌, ◌⊎◌, refl, sym, ap, subst, Bool, true, false, not, ◌&&◌,
  ◌||◌, List, [], add32, ltb, ◌==◌, any_bit, arith, inl, inr, Bool-cases,
}
use memt.Input.{
  Input, Location, location, ask, AlignmentInfo, WordAlignments, is_connection, get_engine,
  get_word, num_engines, engine_length,
}
use memt.Input.Closure.{located, insert_location, eq_location}
use memt.Input.Closure.Visit.{located-insert_location, split_located, located-new}
use memt.Phrase.Lock.{in_phrase}
use memt.Horizon.Coverage.{is_used}
use memt.Horizon.Hypothesis.{Hypothesis, frontier_of, is_used_in}
use memt.Legacy.{
  LegacyConfig, LegacyHypothesis, insert_if, inexact, insert_aligned, extend_frontier, is_recent,
  extend_recent, extend_engines, get_extensions,
}

-- Every location of a set has a property.
abbrev IsAll : (Location → Type 0) → List Location → Type 0
IsAll p locations = (l : Location) → located l locations ≡ true → p l

insert_location-IsAll :
    (p : Location → Type 0) (l : Location) (s : List Location)
    → IsAll p s
    → p l
    → IsAll p (insert_location l s)
insert_location-IsAll p l s a q m h =
    elim (split_located m l s (sym (located-insert_location m l s) ∙ h)) [
      | inl same ↦ subst p (sym same) q
      | inr old ↦ a m old
    ]

insert_if-IsAll :
    (p : Location → Type 0) (b : Bool) (l : Location) (s : List Location)
    → IsAll p s
    → (b ≡ true → p l)
    → IsAll p (insert_if b l s)
insert_if-IsAll p true l s a q = insert_location-IsAll p l s a (q refl)
insert_if-IsAll p false l s a q = a

insert_aligned-IsAll :
    (p : Location → Type 0) (rounds other : ℕ) (al : WordAlignments) (s : List Location)
    → IsAll p s
    → ((o : ℕ)
        → o < other + rounds
        → any_bit (ask al o).type inexact ≡ true
        → p (location o (ask al o).offset))
    → IsAll p (insert_aligned rounds other al s)
unfolding insert_aligned
insert_aligned-IsAll p zero other al s a q = a
insert_aligned-IsAll p (suc rounds) other al s a q =
    insert_aligned-IsAll p rounds (suc other) al _
      (insert_if-IsAll p (any_bit (ask al other).type inexact) _ s a (q other (omega arith)))
      (λ o h. q o (omega arith))

module _ (config : LegacyConfig) (text : Input) (horizon : Hypothesis) where
  abbrev has_left : ℕ → Bool
  has_left e = ltb (frontier_of horizon e) (engine_length (get_engine text e))

  -- The ways by which a location is offered.
  record Offers (pre_align : WordAlignments) (p : Location → Type 0) : Type 0 where
    next :
        (e : ℕ) → e < num_engines text → has_left e ≡ true → p (location e (frontier_of horizon e))
    aligned :
        config.extend_aligned ≡ true
        → (e o : ℕ) → e < num_engines text
        → has_left e ≡ true
        → o < num_engines text
        → any_bit (ask (get_word text e (frontier_of horizon e)).alignments o).type inexact ≡ true
        → p (location o (ask (get_word text e (frontier_of horizon e)).alignments o).offset)
    recent :
        (e : ℕ)
        → e < num_engines text
        → is_recent config text horizon (ask pre_align e) e ≡ true
        → p (location e (add32 (ask pre_align e).offset 1))

  module _ (pre_align : WordAlignments) (p : Location → Type 0) (offers : Offers pre_align p) where
    extend_frontier-IsAll :
        (e : ℕ) (s : List Location)
        → e < num_engines text
        → IsAll p s
        → IsAll p (extend_frontier config text horizon e s)
    unfolding extend_frontier
    extend_frontier-IsAll e s h a = elim (Bool-cases (has_left e)) [
      | inr none_left ↦ rw none_left a
      | inl left ↦
          let with_next = insert_location-IsAll p _ s a (offers.next e h left) in
          rw left (elim (Bool-cases config.extend_aligned) [
            | inr plain ↦ rw plain with_next
            | inl wide ↦ rw wide (
                insert_aligned-IsAll p (num_engines text) 0 _ _ with_next
                  (λ o k. offers.aligned wide e o h left (omega arith)))
          ])
    ]

    extend_engines-IsAll :
        (rounds e : ℕ) (s : List Location)
        → e + rounds ≤ num_engines text
        → IsAll p s
        → IsAll p (extend_engines rounds config text horizon pre_align e s)
    unfolding extend_engines extend_recent
    extend_engines-IsAll zero e s h a = a
    extend_engines-IsAll (suc rounds) e s h a =
        extend_engines-IsAll rounds (suc e) _ (omega arith) (
          insert_if-IsAll p _ _ _ (extend_frontier-IsAll e s (omega arith) a)
            (offers.recent e (omega arith)))

is_recent-true :
    (config : LegacyConfig) (text : Input) (horizon : Hypothesis) (info : AlignmentInfo) (e : ℕ)
    → is_recent config text horizon info e ≡ true
    → (ltb (add32 info.offset 1) (engine_length (get_engine text e)) ≡ true)
      × (is_used_in horizon e (add32 info.offset 1) ≡ false)
unfolding is_recent
is_recent-true config text horizon info e h =
    five_tests config.continue_recent (is_connection info)
      (not (add32 info.offset 1 == frontier_of horizon e))
      (ltb (add32 info.offset 1) (engine_length (get_engine text e)))
      (is_used_in horizon e (add32 info.offset 1)) h
  where
    five_tests : (a b c d u : Bool) → (a && b && c && d && not u) ≡ true → (d ≡ true) × (u ≡ false)
    five_tests a b c d u h = ground arith

none_located : (l : Location) → located l [] ≡ true → ⊥
unfolding located
none_located l h = false≢true h

module _ {ℓ} {S : Type ℓ} (config : LegacyConfig) (text : Input) (previous : Location)
    (h : LegacyHypothesis S) where
  -- Where aligned words are not offered, each word that GetExtensions offers to a hypothesis outside of
  -- phrases is one that it has not used.
  pub get_extensions-is_used :
      config.extend_aligned ≡ false
      → in_phrase h.phrase ≡ false
      → (l : Location) → located l (get_extensions config text previous h) ≡ true
      → is_used_in h.horizon l.engine l.offset ≡ false
  unfolding get_extensions is_used
  get_extensions-is_used plain e = rw e (
      extend_engines-IsAll config text h.horizon
        (get_word text previous.engine previous.offset).alignments
        (λ l. is_used_in h.horizon l.engine l.offset ≡ false)
        (record {
          next = λ e k left. ground arith;
          aligned = λ wide. absurd (false≢true (sym plain ∙ wide));
          recent = λ e k r. (is_recent-true config text h.horizon _ e r).1;
        })
        (num_engines text) 0 [] (omega arith) (λ l k. absurd (none_located l k)))

-- What is offered stays offered.
insert_if-located :
    (b : Bool) (l m : Location) (s : List Location)
    → located m s ≡ true
    → located m (insert_if b l s) ≡ true
insert_if-located true l m s h = ground (arith, located-insert_location m l s)
insert_if-located false l m s h = h

insert_aligned-located :
    (rounds other : ℕ) (al : WordAlignments) (m : Location) (s : List Location)
    → located m s ≡ true
    → located m (insert_aligned rounds other al s) ≡ true
unfolding insert_aligned
insert_aligned-located zero other al m s h = h
insert_aligned-located (suc rounds) other al m s h =
    insert_aligned-located rounds (suc other) al m _ (insert_if-located _ _ m s h)

module _ (config : LegacyConfig) (text : Input) (horizon : Hypothesis) where
  offered :
      (e : ℕ) (m : Location) (s : List Location)
      → (located m s ≡ true)
        ⊎ ((m ≡ location e (frontier_of horizon e)) × (has_left config text horizon e ≡ true))
      → (eq_location m (location e (frontier_of horizon e)) || located m s) ≡ true
  offered e m s (inl old) = ground arith
  offered e m s (inr new) = located-new _ m s new.0

  extend_frontier-located :
      (e : ℕ) (m : Location) (s : List Location)
      → (located m s ≡ true)
        ⊎ ((m ≡ location e (frontier_of horizon e)) × (has_left config text horizon e ≡ true))
      → located m (extend_frontier config text horizon e s) ≡ true
  unfolding extend_frontier
  extend_frontier-located e m s h = elim (Bool-cases (has_left config text horizon e)) [
    | inr none_left ↦
        rw none_left (elim h [ inl old ↦ old | inr new ↦ absurd (ground (arith, new.1)) ])
    | inl left ↦
        let next : located m (insert_location (location e (frontier_of horizon e)) s) ≡ true =
          located-insert_location m _ s ∙ offered e m s h in
        rw left (elim (Bool-cases config.extend_aligned) [
          | inr plain ↦ rw plain next
          | inl wide ↦ rw wide (insert_aligned-located (num_engines text) 0 _ m _ next)
        ])
  ]

  extend_engines-located :
      (pre_align : WordAlignments) (rounds e : ℕ) (m : Location) (s : List Location)
      → located m s ≡ true
      → located m (extend_engines rounds config text horizon pre_align e s) ≡ true
  unfolding extend_engines extend_recent
  extend_engines-located pre_align zero e m s h = h
  extend_engines-located pre_align (suc rounds) e m s h =
      extend_engines-located pre_align rounds (suc e) m _
        (insert_if-located _ _ m _ (extend_frontier-located e m s (inl h)))

  extend_engines-next :
      (pre_align : WordAlignments) (rounds e i : ℕ) (s : List Location)
      → e ≤ i
      → i < e + rounds
      → has_left config text horizon i ≡ true
      → located
          (location i (frontier_of horizon i))
          (extend_engines rounds config text horizon pre_align e s)
        ≡ true
  unfolding extend_engines extend_recent
  extend_engines-next pre_align zero e i s h k left = absurd (omega arith)
  extend_engines-next pre_align (suc rounds) e i s h k left = elim (ℕ_discrete e i) [
    | yes same ↦ extend_engines-located pre_align rounds (suc e) _ _ (
        insert_if-located _ _ _ _ (
          extend_frontier-located e _ s (
            inr (
              ap (λ j. location j (frontier_of horizon j)) (sym same),
              ap (has_left config text horizon) same ∙ left,
            ))))
    | no later ↦ extend_engines-next pre_align rounds (suc e) i _ (omega arith) (omega arith) left
  ]

-- GetExtensions offers to a hypothesis outside of phrases the word at the frontier of each engine that
-- has words left.
pub get_extensions-located {ℓ} :
    {S : Type ℓ} (config : LegacyConfig) (text : Input) (previous : Location)
    (h : LegacyHypothesis S) (e : ℕ)
    → in_phrase h.phrase ≡ false
    → e < num_engines text
    → frontier_of h.horizon e < engine_length (get_engine text e)
    → located (location e (frontier_of h.horizon e)) (get_extensions config text previous h) ≡ true
unfolding get_extensions
get_extensions-located config text previous h e free known left = rw free (
    extend_engines-next config text h.horizon _ (num_engines text) 0 e [] (omega arith)
      (omega arith) (ground arith))
