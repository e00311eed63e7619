-- ===== src/Horizon/Hypothesis.antt =====
-- MEMT/Strategy/Horizon/Hypothesis.hh and Hypothesis.cc, class Hypothesis: the coverages of all the
-- engines, the words that a chosen word's alignments use up, and the skipping of punctuation.
pub mod Skip
pub mod Aligned
use memt.Prelude.{
  ℕ, zero, suc, ◌+◌, ◌-◌, ◌≡◌, Bool, true, false, not, ◌&&◌, ◌||◌, List, [], ◌∷◌, ltb, leb, ◌==◌,
  if◌then◌else◌, length, get_or, modify, replicate,
}
use memt.Input.{
  Word, Engine, Input, WordAlignments, AlignmentInfo, Location, is_none, blank_word, engine_length,
  get_engine, get_word,
}
use memt.Phrase.{System, PhraseRange, phrase_at}
use memt.Horizon.Coverage.{
  Coverage, initialize_root, use_frontier, use_word, is_used, max_clear, eq_coverage,
}

-- Coverage of each engine.
abbrev pub Hypothesis : Type 0
Hypothesis = List Coverage

abbrev pub coverage_of : Hypothesis → ℕ → Coverage
coverage_of h e = get_or h e initialize_root

-- InitializeRoot
abbrev pub initialize_all : ℕ → Hypothesis
initialize_all engines = replicate engines initialize_root

abbrev pub frontier_of : Hypothesis → ℕ → ℕ
frontier_of h e = (coverage_of h e).frontier

abbrev pub max_clear_of : Hypothesis → ℕ → ℕ
max_clear_of h e = max_clear (coverage_of h e)

abbrev pub is_used_in : Hypothesis → ℕ → ℕ → Bool
is_used_in h e offset = is_used (coverage_of h e) offset

-- operator==
unfoldable pub eq_hypothesis : Hypothesis → Hypothesis → Bool
eq_hypothesis [] [] = true
eq_hypothesis [] (d ∷ ds) = false
eq_hypothesis (c ∷ cs) [] = false
eq_hypothesis (c ∷ cs) (d ∷ ds) = eq_coverage c d && eq_hypothesis cs ds

-- for (j = block.start; j <= block.end; ++j) Use(j), with `rounds` left
unfoldable pub use_range : ℕ → ℕ → Coverage → Coverage
use_range zero j c = c
use_range (suc rounds) j c = use_range rounds (suc j) (use_word c j)

abbrev pub system_at : List System → ℕ → System
system_at phrase e = get_or phrase e []

-- One round of Alignments, on the coverage of engine `i`: the engine of the chosen word itself and
-- an engine with no alignment are passed over.
unfoldable pub use_block : ℕ → List System → ℕ → AlignmentInfo → Coverage → Coverage
use_block own phrase i info c =
    let block = (phrase_at (system_at phrase i) info.offset).block in
    if i == own || is_none info then c else use_range (block.end + 1 - block.start) block.start c

-- The loop of Alignments, at engine `i`.
unfoldable pub align_loop : WordAlignments → ℕ → ℕ → List System → Hypothesis → Hypothesis
align_loop [] i own phrase h = h
align_loop (info ∷ align) i own phrase h =
    align_loop align (suc i) own phrase (modify (use_block own phrase i info) i h)

unfoldable pub alignments : Input → List System → Location → Hypothesis → Hypothesis
unfolding align_loop use_block use_range
alignments text phrase to h =
    modify (λ c. use_word c to.offset) to.engine
      (align_loop (get_word text to.engine to.offset).alignments 0 to.engine phrase h)

abbrev pub word_at : Engine → ℕ → Word
word_at engine o = get_or engine.words o blank_word

-- The frontier is on a punctuation mark of the sentence.
abbrev pub at_punctuation : Engine → Coverage → Bool
at_punctuation engine c =
    ltb c.frontier (engine_length engine) && (word_at engine c.frontier).text.is_punctuation

unfoldable pub skip_loop : ℕ → Engine → Coverage → Coverage
skip_loop zero engine c = c
skip_loop (suc fuel) engine c =
    let rest = skip_loop fuel engine (use_frontier c) in if at_punctuation engine c then rest else c

-- As many rounds as there are words are enough.
unfoldable pub skip_punctuation : Engine → Coverage → Coverage
unfolding skip_loop
skip_punctuation engine c = skip_loop (engine_length engine) engine c

unfoldable pub advance_skip_punctuation : Engine → Coverage → Coverage
advance_skip_punctuation engine c = skip_punctuation engine (use_frontier c)

skip_others : ℕ → ℕ → List Engine → Hypothesis → Hypothesis
skip_others i advancing (engine ∷ engines) (c ∷ h) =
    (if i == advancing then c else skip_punctuation engine c)
    ∷ skip_others (suc i) advancing engines h
skip_others i advancing _ h = h

-- Every engine but the one that advances skips punctuation.
unfoldable pub skip_leading_punctuation : Input → ℕ → Hypothesis → Hypothesis
unfolding skip_others
skip_leading_punctuation text advancing h = skip_others 0 advancing text.engines h

any_left : List Engine → Hypothesis → Bool
any_left (engine ∷ engines) (c ∷ h) = ltb c.frontier (engine_length engine) || any_left engines h
any_left _ _ = false

-- ConsumeWord, with the constraints that the configuration chooses; also whether some engine has
-- words left.
unfoldable pub consume_word :
    (Hypothesis → Hypothesis) → Input → List System → Location → Hypothesis → Hypothesis × Bool
unfolding any_left alignments skip_leading_punctuation
consume_word enforce text phrase location h =
    let h' =
      enforce (skip_leading_punctuation text location.engine (alignments text phrase location h)) in
    (h', any_left text.engines h')
