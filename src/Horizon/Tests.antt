-- ===== src/Horizon/Tests.antt =====
-- Concrete runs of the coverages, hypotheses and windows.
use mathlib.Core.Bool.{false≢true}
use native.Mathlib.Decide.{ℕ_discrete}
use memt.Prelude.{
  get_or, queued, ℕ, zero, suc, ◌+◌, ◌≤◌, ◌<◌, ◌≡◌, ◌↔◌, ◌||◌, ◌&&◌, ==_self, if◌then◌else◌, ltb,
  refl, Bool, true, false, List, [], ◌∷◌, some, ◌==◌, length, arith, inl, inr, word_mod, min, ◌-◌,
}
use memt.Input.{Word, Engine, Input, location, get_engine, blank_text, ask}
use memt.Phrase.{System, reset_word}
use memt.Horizon.Coverage.{
  Coverage, use_word, use_to, is_used, is_clear_through, max_clear, eq_coverage,
}
use memt.Horizon.Coverage.Set.{is_used-use_word, UsedTo, use_to-UsedTo}
use memt.Horizon.Coverage.Canonical.{IsValid, ends_set, eq_coverage-is_used_iff, use_word-IsValid}
use memt.Horizon.Coverage.Clear.{is_clear_through_iff, max_clear_blocked}
use memt.Horizon.Window.{from_beginning, from_end, make_projection, near, range_contains}
use memt.Horizon.Window.{projection_loop, update_shifts, Range, reset_window}
use memt.Horizon.Window.Ranges.{
  no_range, around, raised, reset_window-between, reset_window-aligned,
}
use memt.Horizon.Window.Projection.{Projected, make_projection-Projected, align_at}
use memt.Horizon.Window.Bounds.{near_misses}
use memt.Horizon.Hypothesis.{Hypothesis, coverage_of, frontier_of, is_used_in, alignments}
use memt.Horizon.Hypothesis.Aligned.{is_used-alignments, alignments-IsValid, in_block, aligned_to}
use memt.Horizon.Old.{enforce_old, farthest}
use memt.Horizon.Old.Invariant.{Room}
use memt.Horizon.Old.Advance.{IsSound}
use memt.Horizon.Old.Enforced.{IsTop, IsWithin, enforce_old-IsWithin}

-- Words before 2 and word 4 are used.
abbrev gapped : Coverage
gapped = record { frontier = 2; used = false ∷ true ∷ [] }

abbrev packed : Coverage
packed = record { frontier = 2; used = true ∷ [] }

abbrev fresh : Coverage
fresh = record { frontier = 2; used = [] }

gapped-IsValid : IsValid 6 gapped
unfolding ends_set
gapped-IsValid = record { inside = omega arith; flags = inr (omega arith); ends = refl }

fresh-IsValid : IsValid 6 fresh
unfolding ends_set
fresh-IsValid = record { inside = omega arith; flags = inl refl; ends = refl }

is_used-use_word_example : is_used (use_word gapped 2) 3 ≡ (3 == 2) || is_used gapped 3
is_used-use_word_example = is_used-use_word gapped 2 3 (omega arith) (omega arith) (omega arith)

use_to-UsedTo_example : UsedTo gapped 4 3 (use_to gapped 4)
use_to-UsedTo_example = use_to-UsedTo gapped 4 3 (omega arith) (omega arith) (omega arith)

eq_coverage-is_used_iff_example :
    (eq_coverage gapped fresh ≡ true)
    ↔ ((o : ℕ) → o < word_mod → is_used gapped o ≡ is_used fresh o)
eq_coverage-is_used_iff_example =
    eq_coverage-is_used_iff 6 gapped fresh (omega arith) gapped-IsValid fresh-IsValid

use_word-IsValid_example : IsValid 6 (use_word gapped 3)
use_word-IsValid_example = use_word-IsValid 6 gapped (omega arith) gapped-IsValid 3 (omega arith)

is_clear_through_iff_example :
    (is_clear_through gapped 3 ≡ true) ↔ ((o : ℕ) → 2 ≤ o → o ≤ 3 → is_used gapped o ≡ false)
is_clear_through_iff_example =
    is_clear_through_iff gapped 3 (omega arith) (omega arith) (omega arith)

max_clear_blocked_example : is_clear_through packed (max_clear packed) ≡ false
unfolding is_used
max_clear_blocked_example = max_clear_blocked packed (omega arith) refl

near_misses_example : range_contains (near 3 5 7 7) 7 ≡ false
near_misses_example =
    near_misses 3 5 7 (omega arith) (omega arith) (omega arith) (omega arith) (omega arith)

abbrev plain : ℕ → Word
plain o = record {
  text = record blank_text { original = "word" };
  alignments = record { offset = 0; type = 0 } ∷ record { offset = o; type = 2 } ∷ [];
}

abbrev mark : Word
mark = record {
  text = record blank_text { original = ","; is_punctuation = true };
  alignments = record { offset = 0; type = 0 } ∷ record { offset = 0; type = 0 } ∷ [];
}

-- Five words, the third of them a comma.
abbrev first : Engine
first = record { number = 0; words = plain 0 ∷ plain 2 ∷ mark ∷ plain 3 ∷ plain 4 ∷ [] }

abbrev second : Engine
second = record { number = 1; words = plain 0 ∷ plain 1 ∷ plain 2 ∷ plain 3 ∷ plain 4 ∷ [] }

abbrev both : Input
both = record { engines = first ∷ second ∷ [] }

offsets_fit : (k : ℕ) → (ask (align_at first.words k) 1).offset < word_mod
offsets_fit zero = omega arith
offsets_fit (suc zero) = omega arith
offsets_fit (suc (suc zero)) = omega arith
offsets_fit (suc (suc (suc zero))) = omega arith
offsets_fit (suc (suc (suc (suc zero)))) = omega arith
offsets_fit (suc (suc (suc (suc (suc k))))) = omega arith

make_projection-Projected_example :
    Projected first.words 1 5 (make_projection both (from_beginning 5) 0)
    × Projected first.words 1 5 (make_projection both (from_end 5) 0)
make_projection-Projected_example =
    make_projection-Projected both 0 1 (omega arith) (omega arith) (omega arith) offsets_fit

abbrev lefts : List (List ℕ)
lefts = (0 ∷ 0 ∷ []) ∷ (1 ∷ 2 ∷ []) ∷ (2 ∷ 3 ∷ []) ∷ (3 ∷ 3 ∷ []) ∷ (4 ∷ 4 ∷ []) ∷ []

abbrev rights : List (List ℕ)
rights = (0 ∷ 0 ∷ []) ∷ (1 ∷ 2 ∷ []) ∷ (2 ∷ 2 ∷ []) ∷ (3 ∷ 3 ∷ []) ∷ (4 ∷ 4 ∷ []) ∷ []

lefts_made : make_projection both (from_beginning 5) 0 ≡ some lefts
unfolding make_projection projection_loop from_beginning update_shifts
lefts_made = refl

rights_made : make_projection both (from_end 5) 0 ≡ some rights
unfolding make_projection projection_loop from_end update_shifts
rights_made = refl

-- The comma, which is not aligned, has the projections 3 and 2.
reset_window-between_example :
    (rows : List (List Range)) × (reset_window 1 both 0 ≡ some rows)
    × (get_or (get_or rows 2 []) 1 no_range ≡ around 1 5 (raised 3) (raised 2))
reset_window-between_example =
    reset_window-between 1 both 0 1 (omega arith) (omega arith) (omega arith) (omega arith)
      offsets_fit lefts rights 2 lefts_made rights_made (omega arith) (omega arith) (omega arith)

around_comma : around 1 5 (raised 3) (raised 2) ≡ record { start = 1; end = 4 }
around_comma = refl

reset_window-aligned_example :
    (rows : List (List Range)) × (reset_window 1 both 0 ≡ some rows)
    × (get_or (get_or rows 1 []) 1 no_range
        ≡ record { start = min (5 - 1) (2 - 1); end = min (5 - 1) (2 + 1) })
reset_window-aligned_example =
    reset_window-aligned 1 both 0 1 (omega arith) (omega arith) (omega arith) (omega arith)
      offsets_fit 1 (omega arith) refl (omega arith)

abbrev phrases : List System
phrases = [] ∷ (reset_word 0 ∷ reset_word 1 ∷ reset_word 2 ∷ reset_word 3 ∷ reset_word 4 ∷ []) ∷ []

abbrev pair : Hypothesis
pair = gapped ∷ fresh ∷ []

is_used-alignments_example :
    is_used_in (alignments both phrases (location 0 3) pair) 1 3
    ≡ ((0 == 1 && 3 == 3) || in_block phrases 0 1 (aligned_to both (location 0 3) 1) 3)
      || is_used_in pair 1 3
is_used-alignments_example =
    is_used-alignments both phrases (location 0 3) pair 6 1 3 (omega arith) (omega arith)
      (omega arith) fresh-IsValid (omega arith) (omega arith)

alignments-IsValid_example : IsValid 6 (coverage_of (alignments both phrases (location 0 3) pair) 1)
alignments-IsValid_example =
    alignments-IsValid both phrases (location 0 3) pair 6 1 (omega arith) (omega arith)
      fresh-IsValid (λ same. omega arith) (omega arith)

-- A queue that puts the last of its hindmost engines on top.
unfoldable hindmost : Hypothesis → List ℕ → ℕ
hindmost h [] = 0
hindmost h (i ∷ []) = i
hindmost h (i ∷ j ∷ q) =
    let k = hindmost h (j ∷ q) in if ltb (frontier_of h i) (frontier_of h k) then i else k

pick :
    (h : Hypothesis) (b : Bool) (j k : ℕ) (q : List ℕ) (i : ℕ)
    → ltb (frontier_of h j) (frontier_of h k) ≡ b
    → queued i (j ∷ q) ≡ true
    → queued k q ≡ true
    → (queued i q ≡ true → frontier_of h k ≤ frontier_of h i)
    → (queued (if b then j else k) (j ∷ q) ≡ true)
      × (frontier_of h (if b then j else k) ≤ frontier_of h i)
unfolding queued
pick h true j k q i e r s t = elim (ℕ_discrete i j) [
  | yes same ↦ rw same (ground (arith, ==_self j), omega arith)
  | no other ↦ (ground (arith, ==_self j), ground (arith, t))
]
pick h false j k q i e r s t = elim (ℕ_discrete i j) [
  | yes same ↦ rw same (ground arith, ground arith)
  | no other ↦ (ground arith, ground (arith, t))
]

hindmost-IsTop : IsTop hindmost
unfolding hindmost queued
hindmost-IsTop h [] i k = absurd (false≢true k)
hindmost-IsTop h (j ∷ []) i k = elim (ℕ_discrete i j) [
  | yes same ↦ rw same (ground (arith, ==_self j), omega arith)
  | no other ↦ absurd (ground arith)
]
hindmost-IsTop h (j ∷ l ∷ q) i k =
    let tail = hindmost-IsTop h (l ∷ q) in
    pick h _ j (hindmost h (l ∷ q)) (l ∷ q) i refl k (tail l (ground (arith, ==_self l))).0
      (λ r. (tail i r).1)

both-Room : Room both 1
both-Room zero = omega arith
both-Room (suc zero) = omega arith
both-Room (suc (suc i)) = omega arith

abbrev ahead : Coverage
ahead = record { frontier = 4; used = [] }

abbrev apart : Hypothesis
apart = fresh ∷ ahead ∷ []

apart-IsSound : (i : ℕ) → i < 2 → IsSound (get_engine both i) (coverage_of apart i)
unfolding ends_set
apart-IsSound zero k = inl (record { inside = omega arith; flags = inl refl; ends = refl })
apart-IsSound (suc zero) k = inl (record { inside = omega arith; flags = inl refl; ends = refl })
apart-IsSound (suc (suc i)) k = absurd (omega arith)

enforce_old-IsWithin_example :
    (h : Hypothesis) × (enforce_old hindmost both 1 apart ≡ some h)
    × (length h ≡ 2)
    × IsWithin both 2 1 h
    × ((i : ℕ) → frontier_of apart i ≤ frontier_of h i)
unfolding farthest
enforce_old-IsWithin_example =
    enforce_old-IsWithin hindmost hindmost-IsTop both 2 1 both-Room apart (omega arith) refl
      apart-IsSound (omega arith)
