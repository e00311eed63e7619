-- ===== src/Input.antt =====
-- MEMT/Input: the sentences of the engines that are combined, and the alignments between their
-- words. Text.hh, Alignment.hh, Word.hh, Location.hh, Input.hh with their sources.
pub mod Closure
pub mod Read
pub mod Capitalization
mod Tests
use Prim.Native.String.{String}
use Prim.Native.Nat.{bit_or}
use memt.Prelude.{
  ℕ, suc, Bool, true, false, not, List, [], ◌∷◌, ltb, ◌==◌, if◌then◌else◌, length, get_or, modify,
  replicate, resize,
}

-- The type is a mask of the AL_ constants; no bit means no alignment.
pub record AlignmentInfo : Type 0 where
  pub offset : ℕ
  pub type : ℕ

abbrev pub al_exact : ℕ
al_exact = 2

abbrev pub al_self : ℕ
al_self = 128

abbrev pub al_transitive : ℕ
al_transitive = 256

abbrev pub al_boundary : ℕ
al_boundary = 512

abbrev pub is_none : AlignmentInfo → Bool
is_none info = info.type == 0

abbrev pub is_connection : AlignmentInfo → Bool
is_connection info = not (info.type == 0)

-- One entry for each engine.
abbrev pub WordAlignments : Type 0
WordAlignments = List AlignmentInfo

abbrev pub no_alignment : AlignmentInfo
no_alignment = record { offset = 0; type = 0 }

abbrev pub reset_alignments : ℕ → WordAlignments
reset_alignments engines = replicate engines no_alignment

unfoldable pub add_alignment : WordAlignments → ℕ → ℕ → ℕ → WordAlignments
add_alignment al engine offset type =
    modify (λ info. record { offset = offset; type = bit_or info.type type }) engine al

abbrev pub ask : WordAlignments → ℕ → AlignmentInfo
ask al engine = get_or al engine no_alignment

pub record Location : Type 0 where
  pub engine : ℕ
  pub offset : ℕ

abbrev pub location : ℕ → ℕ → Location
location e o = record { engine = e; offset = o }

-- operator<
unfoldable pub less_location : Location → Location → Bool
less_location l r =
    if ltb l.engine r.engine
    then true
    else if ltb r.engine l.engine
    then false
    else ltb l.offset r.offset

pub record WordText : Type 0 where
  pub original : String
  pub canonical : String
  pub is_punctuation : Bool
  pub is_end : Bool
  pub canonical_hash : ℕ

pub record Word : Type 0 where
  pub text : WordText
  pub alignments : WordAlignments

pub record Engine : Type 0 where
  pub number : ℕ
  pub words : List Word

pub record Input : Type 0 where
  pub engines : List Engine

-- The length of a sentence, its end included.
abbrev pub engine_length : Engine → ℕ
engine_length e = length e.words

-- What the model reads past the end of a vector, where the program's behaviour is undefined.
abbrev pub blank_text : WordText
blank_text = record {
  original = "";
  canonical = "";
  is_punctuation = false;
  is_end = false;
  canonical_hash = 0;
}

abbrev pub blank_word : Word
blank_word = record { text = blank_text; alignments = [] }

abbrev pub blank_engine : Engine
blank_engine = record { number = 0; words = [] }

abbrev pub get_engine : Input → ℕ → Engine
get_engine input e = get_or input.engines e blank_engine

abbrev pub get_word : Input → ℕ → ℕ → Word
get_word input e o = get_or (get_engine input e).words o blank_word

abbrev pub num_engines : Input → ℕ
num_engines input = length input.engines

number_from : ℕ → List Engine → List Engine
number_from n [] = []
number_from n (e ∷ es) = record e { number = n } ∷ number_from (suc n) es

unfoldable pub setup_engines : ℕ → Input → Input
unfolding number_from
setup_engines count input = record {
  engines = number_from 0 (resize count blank_engine input.engines);
}
