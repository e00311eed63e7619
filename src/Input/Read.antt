-- ===== src/Input/Read.antt =====
-- MEMT/Input/Read.cc and ReadFromJava.cc: the sentences and the alignments that the matcher found. A
-- stream is the list of its lines that are left. What stands outside of these files is a parameter:
-- the forms of a word (ICU and the hash), the split of a line, and the conversion of a field.
pub mod Words
use Prim.Native.String.{String}
use memt.Prelude.{
  add32, ℕ, zero, suc, ◌+◌, ◌-◌, ◌≡◌, Bool, true, false, not, ◌&&◌, ◌||◌, Option, none, some, List,
  [], ◌∷◌, ltb, leb, ◌==◌, if◌then◌else◌, length, get_or, set, modify, resize,
}
use memt.Input.{
  Word, WordText, Engine, Input, reset_alignments, add_alignment, blank_word, get_engine,
  num_engines, engine_length, setup_engines, al_exact, al_self, al_boundary,
}

-- The exceptions.
pub data MatcherError : Type 0 where
  stream_end : MatcherError
  too_few_columns : ℕ → ℕ → MatcherError
  too_many_columns : ℕ → ℕ → MatcherError
  bad_column : String → ℕ → ℕ → MatcherError
  alignment_off_sentence_end : ℕ → ℕ → ℕ → MatcherError
  unfamiliar_alignment_type : ℕ → MatcherError
  system_number_disagreement : ℕ → ℕ → MatcherError
  more_than_count : String → MatcherError
  zero_systems : MatcherError

pub data Result {ℓ} (A : Type ℓ) : Type ℓ where
  ok : A → Result A
  failed : MatcherError → Result A

unfoldable pub and_then {ℓ} : {A B : Type ℓ} → Result A → (A → Result B) → Result B
and_then (ok a) f = f a
and_then (failed e) f = failed e

-- kAlignJavaMap
unfoldable pub align_java_map : ℕ → Option ℕ
align_java_map type_int =
    if type_int == 0
    then some al_exact
    else if type_int == 1
    then some 4
    else if type_int == 2
    then some 16
    else if type_int == 3
    then some 32
    else none

module _ (bos eos : WordText) (text_of : String → WordText) (engines : ℕ) where
  -- ResetBOS, ResetEOS, ResetWord
  abbrev pub bos_word : Word
  bos_word = record { text = bos; alignments = reset_alignments engines }

  abbrev pub eos_word : Word
  eos_word = record { text = eos; alignments = reset_alignments engines }

  abbrev pub plain_word : String → Word
  plain_word original = record { text = text_of original; alignments = reset_alignments engines }

  -- for (original = ..; original; ++original, ++offset), with the tokens that are left. Also the offset
  -- behind the last.
  unfoldable pub read_words : List String → ℕ → List Word → List Word × ℕ
  read_words [] offset words = (words, offset)
  read_words (original ∷ tokens) offset words =
      let grown =
        if ltb (length words) (add32 offset 1)
        then resize (add32 offset 1) blank_word words
        else words in
      read_words tokens (add32 offset 1) (set grown offset (plain_word original))

  -- ReadEngine
  unfoldable pub read_engine : List String → Engine → Engine
  unfolding read_words
  read_engine tokens engine =
      let words =
        if length engine.words == 0 then resize 2 blank_word engine.words else engine.words in
      let (filled, offset) = read_words tokens 1 (set words 0 bos_word) in
      record engine { words = set (resize (add32 offset 1) blank_word filled) offset eos_word }

abbrev modify_word : (Word → Word) → ℕ → ℕ → Input → Input
modify_word f engine offset text = record {
  engines = modify (λ e. record e { words = modify f offset e.words }) engine text.engines;
}

abbrev pub add_to : ℕ → ℕ → ℕ → Word → Word
add_to engine offset type w = record w {
  alignments = add_alignment w.alignments engine offset type;
}

-- AddSelfAlignments
unfoldable pub self_words : ℕ → ℕ → List Word → List Word
self_words number offset [] = []
self_words number offset (w ∷ words) =
    add_to number offset al_self w ∷ self_words number (suc offset) words

unfoldable pub self_engines : List Engine → List Engine
unfolding self_words
self_engines [] = []
self_engines (e ∷ engines) =
    record e { words = self_words e.number 0 e.words } ∷ self_engines engines

unfoldable pub add_self_alignments : Input → Input
unfolding self_engines
add_self_alignments text = record { engines = self_engines text.engines }

abbrev last_offset : Input → ℕ → ℕ
last_offset text e = engine_length (get_engine text e) - 1

-- One pair of engines of AddBoundaryAlignments.
unfoldable pub bound_pair : ℕ → ℕ → Input → Input
bound_pair e1 e2 text =
    modify_word (add_to e1 (last_offset text e1) al_boundary) e2 (last_offset text e2) (
      modify_word (add_to e2 (last_offset text e2) al_boundary) e1 (last_offset text e1) (
        modify_word (add_to e1 0 al_boundary) e2 0
          (modify_word (add_to e2 0 al_boundary) e1 0 text)))

-- for (e2 = ..; e2 < e1; ++e2), with `rounds` of them left
unfoldable pub bound_below : ℕ → ℕ → ℕ → Input → Input
bound_below zero e1 e2 text = text
bound_below (suc rounds) e1 e2 text = bound_below rounds e1 (suc e2) (bound_pair e1 e2 text)

unfoldable pub bound_engines : ℕ → ℕ → Input → Input
unfolding bound_below bound_pair
bound_engines zero e1 text = text
bound_engines (suc rounds) e1 text = bound_engines rounds (suc e1) (bound_below e1 e1 0 text)

unfoldable pub add_boundary_alignments : Input → Input
unfolding bound_engines
add_boundary_alignments text = bound_engines (num_engines text) 0 text

-- Munch, of a field that `convert` reads. Also the fields that are left.
unfoldable pub munch {ℓ} :
    {A : Type ℓ} → (String → Option A) → ℕ → ℕ → List String → Result (A × List String)
munch convert i j [] = failed (too_few_columns i j)
munch convert i j (field ∷ fields) = elim (convert field) [
  | none ↦ failed (bad_column field i j)
  | some a ↦ ok (a, fields)
]

unfoldable pub no_more : ℕ → ℕ → List String → Result Bool
no_more i j [] = ok true
no_more i j (field ∷ fields) = failed (too_many_columns i j)

-- A match of word `first` of engine `i` with word `second` of engine `j`, boundaries counted.
unfoldable pub add_match : ℕ → ℕ → ℕ → ℕ → ℕ → Input → Result Input
unfolding align_java_map
add_match i j first second type_int text =
    if leb (engine_length (get_engine text i)) first
    then failed (alignment_off_sentence_end i first (engine_length (get_engine text i)))
    else if leb (engine_length (get_engine text j)) second
    then failed (alignment_off_sentence_end j second (engine_length (get_engine text j)))
    else elim (align_java_map type_int) [
      | none ↦ failed (unfamiliar_alignment_type type_int)
      | some type ↦ ok (
          modify_word (add_to i first type) j second
            (modify_word (add_to j second type) i first text))
    ]

-- What the reader takes from outside: the split of a line at tabs, the split at spaces, and the
-- conversions to numbers, where a float is not looked at. `to_count` reads a number off the stream, and
-- gives what is left of its line and the lines behind.
pub record Reader : Type 0 where
  pub begin_text : WordText
  pub end_text : WordText
  pub text_of : String → WordText
  pub is_empty_line : String → Bool
  pub split_tabs : String → List String
  pub split_spaces : String → List String
  pub to_number : String → Option ℕ
  pub to_float : String → Option String
  pub to_count : List String → Option (ℕ × String × List String)

module _ (reader : Reader) where
  -- One line of matches.
  unfoldable pub read_match : ℕ → ℕ → String → Input → Result Input
  unfolding munch no_more add_match
  read_match i j line text =
      and_then (munch reader.to_number i j (reader.split_tabs line)) (λ (first, fields).
        and_then (munch reader.to_number i j fields) (λ (second, fields).
          and_then (munch reader.to_number i j fields) (λ (type_int, fields).
            and_then (munch reader.to_float i j fields) (λ (score, fields).
              and_then (no_more i j fields)
                (λ done. add_match i j (first + 1) (second + 1) type_int text)))))

  -- while (getline(in, line) && (!line.empty())); also the lines that are left.
  unfoldable pub read_matches : ℕ → ℕ → List String → Input → Result (Input × List String)
  unfolding read_match
  read_matches i j [] text = failed stream_end
  read_matches i j (line ∷ lines) text =
      let rest = λ (text' : Input). read_matches i j lines text' in
      if reader.is_empty_line line
      then ok (text, lines)
      else and_then (read_match i j line text) rest

  -- for (j = ..; j < num; ++j), with `rounds` of them left
  unfoldable pub read_row : ℕ → ℕ → ℕ → List String → Input → Result (Input × List String)
  unfolding read_matches
  read_row zero i j lines text = ok (text, lines)
  read_row (suc rounds) i j lines text =
      and_then (read_matches i j lines text)
        (λ (text', lines'). read_row rounds i (suc j) lines' text')

  -- for (i = ..; i < num; ++i), with `rounds` of them left
  unfoldable pub read_rows : ℕ → ℕ → List String → Input → Result (Input × List String)
  unfolding read_row
  read_rows zero i lines text = ok (text, lines)
  read_rows (suc rounds) i lines text =
      and_then (read_row rounds i (suc i) lines text)
        (λ (text', lines'). read_rows rounds (suc i) lines' text')

  -- ReadAllEngines
  unfoldable pub read_all_engines :
      ℕ → List Engine → List String → Result (List Engine × List String)
  unfolding read_engine
  read_all_engines count [] lines = ok ([], lines)
  read_all_engines count (e ∷ engines) [] = failed stream_end
  read_all_engines count (e ∷ engines) (line ∷ lines) =
      let read =
        read_engine reader.begin_text reader.end_text reader.text_of count
          (reader.split_spaces line) e in
      and_then (read_all_engines count engines lines)
        (λ (others, lines'). ok (read ∷ others, lines'))

  -- ReadFromJava; `expected` of 0 expects any number of systems.
  unfoldable pub read_from_java : ℕ → List String → Input → Result (Input × List String)
  unfolding read_all_engines read_rows add_self_alignments add_boundary_alignments
  read_from_java expected lines text = elim (reader.to_count lines) [
    | none ↦ failed stream_end
    | some (num, line, lines) ↦
        if not (expected == 0) && not (num == expected)
        then failed (system_number_disagreement expected num)
        else if num == 0
        then failed zero_systems
        else if not (reader.is_empty_line line)
        then failed (more_than_count line)
        else and_then (read_all_engines num (setup_engines num text).engines lines)
            (λ (engines, lines').
              and_then (read_rows num 0 lines' (record { engines = engines })) (λ (text', lines'').
                ok (add_boundary_alignments (add_self_alignments text'), lines'')))
  ]
