-- ===== src/Lib.antt =====
-- MEMT, the combination of the outputs of several machine translation systems.
--
-- Each engine gives a translation of the same source sentence, and a matcher aligns the words of the
-- translations. A beam search builds the combination word by word from the left: a hypothesis takes
-- the next word from any of the engines, and with it uses up the words of the others that are aligned
-- to the word.
--
-- Input models MEMT/Input: WordText, Word, WordAlignments, Engine and Input, as records and
-- lists. A vector of the program is a list, read out of range through a blank value.
--
-- Input/Closure models Input/Transitive.cc, which makes the alignments transitive, Closure/Reach that
-- CloseAlignment finds what is reached over alignments.
--
-- Input/Read models Input/Read.cc and Input/ReadFromJava.cc, with exceptions as results. The forms of
-- a word, which come from ICU and a hash, the tokenizer and the number conversions are parameters.
--
-- Input/Capitalization models Input/Capitalization.cc and Input/Text.cc.
--
-- Horizon models MEMT/Strategy/Horizon. Horizon/Coverage is class Coverage of Hypothesis.hh, the
-- words of one engine that a hypothesis has used: `use_frontier`, `use_word`, `use_to`,
-- `is_used`, `is_clear_through` and `max_clear` are UseFrontier, Use, UseTo, IsUsed, IsClearThrough
-- and MaxClear. Coverage/Set has what the operations do to the set of used words, Coverage/Clear what
-- the queries answer, Coverage/Canonical the invariant that makes operator== decide that set.
-- Horizon/Hypothesis is class Hypothesis: Alignments, the skipping of punctuation and ConsumeWord.
-- Horizon/Old is EnforceOldConstraints, which lets no engine lag too far, Horizon/Stay
-- EnforceNewConstraints, over a type of scores that is left open. Horizon/Window is
-- Horizon.cc, the ranges of words that are near a word; Window/Ranges has what System::Reset makes of the projections.
--
-- Phrase models MEMT/Strategy/Phrase: Detect has the detectors of Punctuation.cc and Aligned.cc,
-- Phrase and Phrase/Blocks the words that a phrase blocks off, Phrase/Lock the class Hypothesis,
-- which keeps a hypothesis in a phrase until it ends.
--
-- Legacy models MEMT/Strategy/Legacy, the strategy that brings horizon and phrases together:
-- `get_extensions` is GetExtensions, the words that a hypothesis may take next, `extend_non_score` is
-- ExtendNonScore. The scorer's state is a type that is left open.
--
-- Graph models MEMT/Strategy/Graph, which follows the alignments and keeps a bit for each word: Graph and
-- its Bits and Extensions are on Coverage, Graph/Clear has that an extension covers more, and Graph/Strategy
-- is Sentence.hh and Hypothesis.hh as a strategy of the decoder. Its scorer, MEMT/Strategy/Scorer, is not in the
-- repository and is a parameter.
--
-- Beam models util/n_best.hh, the containers that the search keeps its best hypotheses in: `insert` is
-- Available() with InsertAvailable(), `may_make_it` is MayMakeIt, with `keep`, `evict` and
-- `merge_dupe` the branches of InsertAvailable. Beam/Sound has the invariant of the slots, Beam/Best
-- what is kept, Beam/Order MayMakeIt and the sorted values, Beam/Begin the set of a SetDropper.
--
-- Beam/Dupes, Beam/Merging and Beam/Unique are on beams that merge duplicates, Beam/All and Beam/Keeps
-- on what an insertion keeps of all values in a beam.
--
-- Decoder models MEMT/Decoder, the search: Decoder/Score is Score.hh, Decoder/History is History.hh with
-- HistoryBeam.cc, Decoder/Hypothesis is Hypothesis.hh, and Decoder/Implementation is Implementation.hh,
-- where `extend_by_location` is ExtendHypothesisByLocation, `extend_beam` ExtendBeam and `begin_run` with
-- `run_loop` Run. The strategy is a record of its operations, with output arguments as results.
-- Decoder/Complete is EndBeam.cc with Completed.hh, where `complete` is MakeCompletedHypotheses.
-- Decoder/Laws has that the beams of the search obey the laws of a beam, Decoder/Rounds what a round
-- keeps, Decoder/Depth and Decoder/Paths how long the paths in the lattice of histories are, Decoder/Ends
-- that the search ends, Decoder/Complete/Loop and Decoder/Complete/Ends the rounds of the completion, and
-- Decoder/Whole both together.
--
-- Feature/Verbatim models MEMT/Feature/Verbatim, the features that count the n-grams taken verbatim from
-- an engine: `extend` is Extend of Sentence.cc, its loops `run_lengths`, `individual_scores` and
-- `collective_scores`. Verbatim/Counts has what each loop adds, Verbatim/Runs what an extension does,
-- Verbatim/Matches what a run says of the words, Verbatim/Whole the scores after a path. The two floating-point
-- constants are parameters.
--
-- Feature/Scorer models Feature/Scorer/Sentence.hh, all features together: a feature is a record of its
-- operations, the folds `begin_all`, `extend_all` and `end_all` give each its part of the scores, `scorer_begin`,
-- `scorer_extend` and `scorer_end` are Begin, Extend and End. Scorer/Sentences has the features of verbatim
-- n-grams and of the length, Scorer/Whole the scores of a path. Feature/Lm is Feature/LM, with the models
-- of KenLM as records, and `finish_config` the count of Options.cc.
--
-- Machine words: an unsigned of 32 bits is a natural number with its wrap-around written out (add32,
-- sub32), an int its bit pattern. Theorems say where they need that lengths fit.
--
-- Fuel: SkipPunctuation has as much as there are words, MakeProjection one unit more than there are
-- words, EnforceOldConstraints one unit more than the words that the queued engines have left,
-- CloseAlignment one unit more than there are words in all. That it is enough is part of the theorems
-- on them. MakeAlignmentsTransitive has one unit more than there are words, and
-- EnforceNewConstraints takes its fuel as an argument; no theorem says that these are enough. The
-- loop of Run has a round more than the strategy has left to do in the beginning, that of Completed as many as the ending
-- beam is large, which is enough.
--
-- std::priority_queue leaves open which of several hindmost engines is on top; the model takes that
-- choice as a parameter with the documented law, that no queued engine is behind the top.
--
-- The same holds for the heap of a beam, boost::relaxed_heap.
--
-- Not modelled: the KenLM language model and its utilities (lm, most of util), sockets, printing,
-- options, scripts.
pub mod Prelude
pub mod Input
pub mod Phrase
pub mod Horizon
pub mod Beam
pub mod Decoder
pub mod Feature
pub mod Graph
pub mod Legacy
