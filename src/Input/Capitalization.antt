-- ===== src/Input/Capitalization.antt =====
-- MEMT/Input/Capitalization.cc and Text.cc: the forms of a word, and the vote of the aligned words on
-- the case of each letter. What ICU and the hash do is a parameter.
use Prim.Native.String.{String}
use Prim.Native.Nat.{bit_or}
use memt.Prelude.{
  ℕ, zero, suc, ◌+◌, ◌-◌, Bool, true, false, Option, none, some, List, [], ◌∷◌, ltb, leb,
  if◌then◌else◌, length, get_or, modify, resize, any_bit,
}
use memt.Input.{
  WordText, Input, ask, get_word, get_engine, num_engines, engine_length, al_exact, al_self,
}

-- `code_points` is none where the bytes are not UTF-8. `units` and `from_units` convert to the code
-- units of a UnicodeString and back.
pub record Unicode : Type 0 where
  pub lower : String → String
  pub is_punctuation : String → Bool
  pub hash : String → ℕ
  pub code_points : String → Option (List ℕ)
  pub is_upper : ℕ → Bool
  pub is_lower : ℕ → Bool
  pub to_upper : ℕ → ℕ
  pub to_lower : ℕ → ℕ
  pub units : String → List ℕ
  pub from_units : List ℕ → String

-- For each letter, the words that have it in upper and in lower case.
pub record Votes : Type 0 where
  pub uppercase : List ℕ
  pub lowercase : List ℕ

module _ (unicode : Unicode) where
  -- ResetBOS
  unfoldable pub reset_bos : WordText
  reset_bos = record {
    original = "<s>";
    canonical = "<s>";
    is_punctuation = false;
    is_end = false;
    canonical_hash = unicode.hash "<s>";
  }

  -- ResetEOS
  unfoldable pub reset_eos : WordText
  reset_eos = record {
    original = "</s>";
    canonical = "</s>";
    is_punctuation = false;
    is_end = true;
    canonical_hash = unicode.hash "</s>";
  }

  -- RereadOriginal
  unfoldable pub reread_original : Bool → WordText → WordText
  reread_original lowercase_canonical text =
      let canonical = if lowercase_canonical then unicode.lower text.original else text.original in
      record {
        original = text.original;
        canonical = canonical;
        is_punctuation = unicode.is_punctuation canonical;
        is_end = false;
        canonical_hash = unicode.hash canonical;
      }

  -- The loop of CollectVotes at letter `i`. Both vectors have the same size.
  unfoldable pub collect_from : List ℕ → ℕ → Votes → Votes
  collect_from [] i votes = votes
  collect_from (character ∷ characters) i votes =
      let grow = leb (length votes.uppercase) i in
      let up = if grow then resize (i + 1) 0 votes.uppercase else votes.uppercase in
      let low = if grow then resize (i + 1) 0 votes.lowercase else votes.lowercase in
      collect_from characters (suc i) (record {
        uppercase = if unicode.is_upper character then modify (λ v. v + 1) i up else up;
        lowercase = if unicode.is_lower character then modify (λ v. v + 1) i low else low;
      })

  -- CollectVotes; `none` is the exception.
  unfoldable pub collect_votes : String → Votes → Option Votes
  unfolding collect_from
  collect_votes word votes = elim (unicode.code_points word) [
    | none ↦ none
    | some characters ↦ some (collect_from characters 0 votes)
  ]

  -- The loop of ApplyVotes at code unit `i`.
  unfoldable pub apply_from : List ℕ → ℕ → Votes → List ℕ
  apply_from [] i votes = []
  apply_from (unit ∷ units) i votes =
      (if ltb i (length votes.uppercase)
        then (if ltb (get_or votes.lowercase i 0) (get_or votes.uppercase i 0)
            then unicode.to_upper unit
            else unicode.to_lower unit)
        else unit)
      ∷ apply_from units (suc i) votes

  unfoldable pub apply_votes : String → Votes → String
  unfolding apply_from
  apply_votes word votes = unicode.from_units (apply_from (unicode.units word) 0 votes)

  -- The votes on word `offset` of engine `e`, of the engines from `engine` on, `rounds` of them.
  unfoldable pub votes_on : ℕ → ℕ → Input → ℕ → ℕ → Votes → Option Votes
  unfolding collect_votes
  votes_on zero engine text e offset votes = some votes
  votes_on (suc rounds) engine text e offset votes =
      let info = ask (get_word text e offset).alignments engine in
      let next = λ (votes' : Votes). votes_on rounds (suc engine) text e offset votes' in
      if any_bit info.type (bit_or al_exact al_self)
      then elim (collect_votes (get_word text engine info.offset).text.original votes) [
        | none ↦ none
        | some votes' ↦ next votes'
      ]
      else next votes

  abbrev set_original : String → ℕ → ℕ → Input → Input
  set_original original e offset text = record {
    engines =
        modify
          (λ f. record f {
            words =
                modify (λ w. record w { text = record w.text { original = original } }) offset
                  f.words;
          })
          e text.engines;
  }

  -- The words of engine `e` from `offset` on, `rounds` of them. Later votes see the new case.
  unfoldable pub capitalize_words : ℕ → ℕ → ℕ → Input → Option Input
  unfolding votes_on apply_votes
  capitalize_words zero e offset text = some text
  capitalize_words (suc rounds) e offset text =
      elim (votes_on (num_engines text) 0 text e offset
        (record { uppercase = []; lowercase = [] })) [
          | none ↦ none
          | some votes ↦ capitalize_words rounds e (suc offset) (
              set_original (apply_votes (get_word text e offset).text.original votes) e offset text)
        ]

  -- The words between the boundaries of the engines from `e` on, `rounds` of them.
  unfoldable pub capitalize_engines : ℕ → ℕ → Input → Option Input
  unfolding capitalize_words
  capitalize_engines zero e text = some text
  capitalize_engines (suc rounds) e text =
      elim (capitalize_words (engine_length (get_engine text e) - 2) e 1 text) [
        | none ↦ none
        | some text' ↦ capitalize_engines rounds (suc e) text'
      ]

  -- ApplyCapitalization
  unfoldable pub apply_capitalization : Input → Option Input
  unfolding capitalize_engines
  apply_capitalization text = capitalize_engines (num_engines text) 0 text
