-- ===== src/Phrase/Detect.antt =====
-- MEMT/Strategy/Phrase/Punctuation.cc and Aligned.cc: the phrases of a sentence; System::Reset and
-- Sentence::Reset of Phrase.cc.
use memt.Prelude.{
  ℕ, suc, ◌+◌, ◌-◌, Bool, true, false, not, ◌||◌, ◌&&◌, List, [], ◌∷◌, map, add32, ltb, leb, ◌==◌,
  if◌then◌else◌, length, modify, any_bit,
}
use memt.Input.{Word, Engine, Input, WordAlignments, ask, is_none, is_connection}
use memt.Phrase.{System, add_end, reset_word, compute_blocks, phrase_punctuation, phrase_alignment}

abbrev pub add_phrase : ℕ → ℕ → ℕ → System → System
add_phrase start end type system = modify (add_end end type) start system

-- What one word does to the start of the phrase, whether a phrase is open, and the system.
unfoldable pub punctuation_step : Word → ℕ → ℕ → Bool → System → ℕ × Bool × System
punctuation_step w i start opened system =
    if w.text.is_punctuation
    then (if not opened then (i - 1, true, system) else (start, opened, system))
    else if opened
    then (start, false, add_phrase start (i - 1) phrase_punctuation system)
    else (start, opened, system)

-- The loop of DetectPunctuation at word `i`, with the words from there on. Also whether a phrase is
-- still open at the end, which the source asserts not to be.
unfoldable pub punctuation_loop : List Word → ℕ → ℕ → Bool → System → System × Bool
unfolding punctuation_step
punctuation_loop [] i start opened system = (system, opened)
punctuation_loop (w ∷ ws) i start opened system =
    let (next_start, still_open, added) = punctuation_step w i start opened system in
    punctuation_loop ws (suc i) next_start still_open added

unfoldable pub from_second : List Word → List Word
from_second [] = []
from_second (w ∷ ws) = ws

unfoldable pub detect_punctuation : Engine → System → System × Bool
unfolding from_second punctuation_loop
detect_punctuation engine system = punctuation_loop (from_second engine.words) 1 0 false system

-- std::map from an engine to an offset: the keys ascend.
abbrev pub Parallel : Type 0
Parallel = List (ℕ × ℕ)

-- `insert`, which leaves a key that is there as it is
pub insert_parallel : ℕ → ℕ → Parallel → Parallel
insert_parallel e o [] = (e, o) ∷ []
insert_parallel e o ((k, v) ∷ m) =
    if e == k
    then (k, v) ∷ m
    else if ltb e k
    then (e, o) ∷ (k, v) ∷ m
    else (k, v) ∷ insert_parallel e o m

unfoldable pub seed_parallel : ℕ → WordAlignments → Parallel → Parallel
seed_parallel e [] parallel = parallel
seed_parallel e (info ∷ from) parallel =
    seed_parallel (suc e) from
      (if is_connection info then insert_parallel e info.offset parallel else parallel)

-- Cut the map down to the alignments that continue, and move those on.
unfoldable pub continue_parallel : WordAlignments → Parallel → Parallel
continue_parallel align [] = []
continue_parallel align ((e, o) ∷ parallel) =
    let rest = continue_parallel align parallel in
    if is_none (ask align e) || not ((ask align e).offset == add32 o 1)
    then rest
    else (e, add32 o 1) ∷ rest

-- A run of aligned words that is cut before `word` is a phrase if it is longer than one word.
unfoldable pub end_run : Bool → ℕ → ℕ → System → System
end_run cut word start system =
    if cut && not (start == word - 1)
    then add_phrase start (word - 1) phrase_alignment system
    else system

-- The loop of DetectAligned at `word`, with the words from there on.
unfoldable pub aligned_loop : List Word → ℕ → ℕ → Parallel → System → System
aligned_loop [] word start parallel system =
    if ltb (start + 1) word then add_phrase start (word - 1) phrase_alignment system else system
aligned_loop (w ∷ ws) word start parallel system =
    let kept = continue_parallel w.alignments parallel in
    let cut = leb (length kept) 1 in
    aligned_loop ws (suc word) (if cut then word else start)
      (if cut then seed_parallel 0 w.alignments kept else kept) (end_run cut word start system)

unfoldable pub aligned_from : List Word → System → System
aligned_from (bos ∷ first ∷ ws) system =
    aligned_loop ws 2 1 (seed_parallel 0 first.alignments []) system
aligned_from ws system = system

unfoldable pub detect_aligned : Engine → System → System
unfolding aligned_from aligned_loop end_run continue_parallel seed_parallel insert_parallel
detect_aligned engine system = aligned_from engine.words system

unfoldable pub reset_words : ℕ → List Word → System
reset_words i [] = []
reset_words i (w ∷ ws) = reset_word i ∷ reset_words (suc i) ws

-- The phrases that `types` asks for.
unfoldable pub detect : ℕ → Engine → System
unfolding reset_words detect_punctuation detect_aligned
detect types engine =
    let fresh = reset_words 0 engine.words in
    let punctuated =
      if any_bit types phrase_punctuation then (detect_punctuation engine fresh).0 else fresh in
    if any_bit types phrase_alignment then detect_aligned engine punctuated else punctuated

unfoldable pub reset_system : ℕ → Engine → System
unfolding detect compute_blocks
reset_system types engine = compute_blocks (detect types engine)

unfoldable pub reset_sentence : ℕ → Input → List System
reset_sentence types input = map (reset_system types) input.engines
