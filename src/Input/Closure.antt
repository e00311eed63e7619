-- ===== src/Input/Closure.antt =====
-- MEMT/Input/Transitive.cc: the alignments are made transitive, where that aligns no two words of one
-- engine. A std::set of locations is a list in the order of operator<.
pub mod Visit
pub mod Reach
use memt.Prelude.{
  ℕ, zero, suc, ◌+◌, ◌≡◌, Bool, true, false, not, ◌&&◌, ◌||◌, List, [], ◌∷◌, ◌++◌, Option, none,
  some, ltb, leb, ◌==◌, if◌then◌else◌, length, get_or, set, modify, replicate, map,
}
use memt.Input.{
  Word, Engine, Input, Location, location, less_location, WordAlignments, ask, is_connection,
  get_engine, get_word, num_engines, engine_length, add_alignment, al_transitive,
}

abbrev pub eq_location : Location → Location → Bool
eq_location l r = l.engine == r.engine && l.offset == r.offset

unfoldable pub located : Location → List Location → Bool
located l [] = false
located l (k ∷ seen) = eq_location l k || located l seen

-- set::insert
unfoldable pub insert_location : Location → List Location → List Location
insert_location l [] = l ∷ []
insert_location l (k ∷ seen) =
    if less_location l k
    then l ∷ k ∷ seen
    else if less_location k l
    then k ∷ insert_location l seen
    else k ∷ seen

abbrev pub aligned_at : WordAlignments → ℕ → Location
aligned_at alignments other = location other (ask alignments other).offset

-- for (other = ..; other < text.engines.size(); ++other), with `rounds` of them left: the words that
-- are aligned and were not seen are opened.
unfoldable pub visit :
    ℕ → ℕ → WordAlignments → List Location → List Location → List Location × List Location
visit zero other alignments opened seen = (opened, seen)
visit (suc rounds) other alignments opened seen =
    let to_ins = aligned_at alignments other in
    if is_connection (ask alignments other) && not (located to_ins seen)
    then visit rounds (suc other) alignments (to_ins ∷ opened) (insert_location to_ins seen)
    else visit rounds (suc other) alignments opened seen

abbrev pub alignments_of : Input → Location → WordAlignments
alignments_of text l = (get_word text l.engine l.offset).alignments

-- `none` means that the fuel ran out.
unfoldable pub close_loop : ℕ → Input → List Location → List Location → Option (List Location)
close_loop zero text opened seen = none
close_loop (suc fuel) text [] seen = some seen
close_loop (suc fuel) text (pos ∷ opened) seen =
    let next = visit (num_engines text) 0 (alignments_of text pos) opened seen in
    close_loop fuel text next.0 next.1

unfoldable pub words_from : ℕ → ℕ → ℕ → List Location
words_from zero engine offset = []
words_from (suc rounds) engine offset =
    location engine offset ∷ words_from rounds engine (suc offset)

unfoldable pub engines_from : ℕ → List Engine → List Location
unfolding words_from
engines_from i [] = []
engines_from i (e ∷ engines) = words_from (engine_length e) i 0 ++ engines_from (suc i) engines

-- All words of the sentences.
unfoldable pub all_locations : Input → List Location
unfolding engines_from
all_locations text = engines_from 0 text.engines

-- CloseAlignment. One round for each word, and one to find that none is left, are enough.
unfoldable pub close_alignment : Input → Location → Option (List Location)
unfolding close_loop visit insert_location all_locations
close_alignment text start =
    close_loop (length (all_locations text) + 1) text (start ∷ []) (start ∷ [])

-- MakeAlignmentsTransitive. `unused` is the words that are in no closure yet.
unfoldable pub erase_all : List Location → List Location → List Location
erase_all closure [] = []
erase_all closure (l ∷ unused) =
    if located l closure then erase_all closure unused else l ∷ erase_all closure unused

unfoldable pub count_engine : ℕ → List Location → ℕ
count_engine e [] = 0
count_engine e (l ∷ closure) =
    if l.engine == e then suc (count_engine e closure) else count_engine e closure

-- Some engine has two words in the closure.
unfoldable pub has_conflict : ℕ → List Location → Bool
has_conflict zero closure = false
has_conflict (suc engines) closure =
    ltb 1 (count_engine engines closure) || has_conflict engines closure

unfoldable pub tell_word : List Location → WordAlignments → WordAlignments
tell_word [] telling = telling
tell_word (about ∷ closure) telling =
    tell_word closure (add_alignment telling about.engine about.offset al_transitive)

unfoldable pub tell_at : List Location → Location → Input → Input
unfolding tell_word
tell_at closure t text = record {
  engines =
      modify
        (λ e. record e {
          words =
              modify (λ w. record w { alignments = tell_word closure w.alignments }) t.offset
                e.words;
        })
        t.engine text.engines;
}

unfoldable pub tell_all : List Location → List Location → Input → Input
unfolding tell_at
tell_all closure [] text = text
tell_all closure (t ∷ telling) text = tell_all closure telling (tell_at closure t text)

unfoldable pub transitive_loop : ℕ → List Location → Input → Option Input
unfolding close_alignment erase_all has_conflict count_engine tell_all
transitive_loop zero unused text = none
transitive_loop (suc fuel) [] text = some text
transitive_loop (suc fuel) (start ∷ unused) text = elim (close_alignment text start) [
  | none ↦ none
  | some closure ↦
      let told =
        if has_conflict (num_engines text) closure then text else tell_all closure closure text in
      transitive_loop fuel (erase_all closure (start ∷ unused)) told
]

unfoldable pub make_alignments_transitive : Input → Option Input
unfolding transitive_loop
make_alignments_transitive text =
    transitive_loop (length (all_locations text) + 1) (all_locations text) text
