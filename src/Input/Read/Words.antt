-- ===== src/Input/Read/Words.antt =====
-- ReadEngine leaves the words of the line between the two boundaries, whatever was there before.
use Prim.Native.String.{String}
use memt.Prelude.{
  ℕ, zero, suc, ◌+◌, ◌<◌, ◌≡◌, ◌∙◌, refl, ap, sym, subst, add32, word_mod, false, List, [], ◌∷◌,
  ltb, ◌==◌, if◌then◌else◌, length, get_or, set, resize, arith, inl, inr, Bool-cases, length-set,
  length-resize, get_or-set, get_or-resize, ==_self,
}
use memt.Input.{Word, WordText, Engine, blank_word}
use memt.Input.Read.{bos_word, eos_word, plain_word, read_words, read_engine}

module _ (bos eos : WordText) (text_of : String → WordText) (engines : ℕ) where
  abbrev word_at : List Word → ℕ → Word
  word_at words i = get_or words i blank_word

  abbrev grown : ℕ → List Word → List Word
  grown offset words =
      if ltb (length words) (offset + 1) then resize (offset + 1) blank_word words else words

  resized :
      (n i : ℕ) (words : List Word)
      → i < n
      → word_at (resize n blank_word words) i ≡ word_at words i
  resized zero i words h = absurd (omega arith)
  resized (suc n) zero [] h = refl
  resized (suc n) zero (w ∷ words) h = refl
  resized (suc n) (suc i) [] h = resized n i [] (omega arith)
  resized (suc n) (suc i) (w ∷ words) h = resized n i words (omega arith)

  grown_room : (offset : ℕ) (words : List Word) → offset < length (grown offset words)
  grown_room offset words = elim (Bool-cases (ltb (length words) (offset + 1))) [
    | inl e ↦ rw e (omega (arith, length-resize (offset + 1) blank_word words))
    | inr e ↦ rw e (ground arith)
  ]

  at_grown : (offset i : ℕ) (words : List Word) → word_at (grown offset words) i ≡ word_at words i
  at_grown offset i words = elim (Bool-cases (ltb (length words) (offset + 1))) [
    | inl e ↦ rw e (get_or-resize (offset + 1) i words blank_word (ground arith))
    | inr e ↦ rw e refl
  ]

  -- The words before `offset` stay, and the tokens follow.
  pub record IsRead (tokens : List String) (offset : ℕ) (words : List Word) (r : List Word × ℕ)
      : Type 0 where
    pub end : r.1 ≡ offset + length tokens
    pub before : (i : ℕ) → i < offset → word_at r.0 i ≡ word_at words i
    pub at :
        (i : ℕ)
        → i < length tokens
        → word_at r.0 (offset + i) ≡ plain_word bos eos text_of engines (get_or tokens i "")

  tokens_at :
      (t : String) (tokens : List String) (offset : ℕ) (next : List Word) (r : List Word × ℕ)
      → IsRead tokens (suc offset) next r
      → word_at next offset ≡ plain_word bos eos text_of engines t
      → (i : ℕ) → i < suc (length tokens)
      → word_at r.0 (offset + i) ≡ plain_word bos eos text_of engines (get_or (t ∷ tokens) i "")
  tokens_at t tokens offset next r rest here zero h =
      let same : offset + 0 ≡ offset = omega arith in
      ap (word_at r.0) same ∙ rest.before offset (omega arith) ∙ here
  tokens_at t tokens offset next r rest here (suc i) h =
      let same : offset + suc i ≡ suc offset + i = omega arith in
      ap (word_at r.0) same ∙ rest.at i (omega arith)

  -- One round, where the offset does not wrap around.
  read_words_cons :
      (t : String) (tokens : List String) (offset : ℕ) (words : List Word)
      → suc offset < word_mod
      → read_words bos eos text_of engines (t ∷ tokens) offset words
        ≡ read_words bos eos text_of engines tokens
            (suc offset)
            (set (grown offset words) offset (plain_word bos eos text_of engines t))
  unfolding read_words
  read_words_cons t tokens offset words small =
      let up : add32 offset 1 ≡ offset + 1 = omega (arith, small) in
      let next : offset + 1 ≡ suc offset = omega arith in
      ap
        (λ k. read_words bos eos text_of engines tokens k (
          set (if ltb (length words) k then resize k blank_word words else words) offset
            (plain_word bos eos text_of engines t)))
        up
      ∙ ap
          (λ k.
            read_words bos eos text_of engines tokens k
              (set (grown offset words) offset (plain_word bos eos text_of engines t)))
          next

  read_words-IsRead :
      (tokens : List String) (offset : ℕ) (words : List Word)
      → offset + length tokens < word_mod
      → IsRead tokens offset words (read_words bos eos text_of engines tokens offset words)
  unfolding read_words
  read_words-IsRead [] offset words small = record {
    end = omega arith;
    before = λ i h. refl;
    at = λ i h. absurd (omega arith);
  }
  read_words-IsRead (t ∷ tokens) offset words small =
      let w = plain_word bos eos text_of engines t in
      let next = set (grown offset words) offset w in
      let rest = read_words-IsRead tokens (suc offset) next (omega (arith, small)) in
      let put = λ (i : ℕ).
        get_or-set (grown offset words) offset i w blank_word (grown_room offset words) in
      let here : word_at next offset ≡ w = rw (put offset, ==_self offset) refl in
      subst (λ (r : List Word × ℕ). IsRead (t ∷ tokens) offset words r)
        (sym (read_words_cons t tokens offset words (omega (arith, small))))
        (record {
          end = omega (arith, rest.end);
          before = λ i h.
              let other : (offset == i) ≡ false = ground arith in
              rest.before i (omega arith) ∙ put i ∙ rw other (at_grown offset i words);
          at = tokens_at t tokens offset next _ rest here;
        })

  abbrev started : List Word → List Word
  started words = if length words == 0 then resize 2 blank_word words else words

  started_room : (words : List Word) → 0 < length (started words)
  started_room words = elim (Bool-cases (length words == 0)) [
    | inl e ↦ rw e (omega (arith, length-resize 2 blank_word words))
    | inr e ↦ rw e (ground arith)
  ]

  abbrev ending : List Word → ℕ → List Word
  ending words n = set (resize (n + 1) blank_word words) n (eos_word bos eos text_of engines)

  ended :
      (words : List Word) (n : ℕ)
      → (length (ending words n) ≡ n + 1)
        × (word_at (ending words n) n ≡ eos_word bos eos text_of engines)
        × ((i : ℕ) → i < n → word_at (ending words n) i ≡ word_at words i)
  ended words n =
      let size = length-resize (n + 1) blank_word words in
      let eos = eos_word bos eos text_of engines in
      let at = λ (i : ℕ).
        get_or-set (resize (n + 1) blank_word words) n i eos blank_word (omega (arith, size)) in
      (
        length-set (resize (n + 1) blank_word words) n eos ∙ size,
        rw (at n, ==_self n) refl,
        λ i h.
            let other : (n == i) ≡ false = ground arith in
            rw (at i, other) (resized (n + 1) i words (omega arith)),
      )

  -- Whatever words the engine had, ReadEngine leaves those of the line, in order, between the beginning
  -- and the end of the sentence, and no others, where their number with two more fits in 32 bits.
  pub read_engine-IsRead :
      (tokens : List String) (engine : Engine)
      → length tokens + 2 < word_mod
      → let words = (read_engine bos eos text_of engines tokens engine).words in
        (length words ≡ length tokens + 2)
        × (word_at words (length tokens + 1) ≡ eos_word bos eos text_of engines)
        × (word_at words 0 ≡ bos_word bos eos text_of engines)
        × ((i : ℕ)
            → i < length tokens
            → word_at words (i + 1) ≡ plain_word bos eos text_of engines (get_or tokens i ""))
  unfolding read_engine
  read_engine-IsRead tokens engine small =
      let first = set (started engine.words) 0 (bos_word bos eos text_of engines) in
      let r = read_words bos eos text_of engines tokens 1 first in
      let v = read_words-IsRead tokens 1 first (omega (arith, small)) in
      let up : add32 r.1 1 ≡ r.1 + 1 = omega (arith, small, v.end) in
      let (long, last, before) = ended r.0 r.1 in
      let swap : (i : ℕ) → i + 1 ≡ 1 + i = λ i. omega arith in
      rw up (
        omega (arith, long, v.end),
        ap (word_at (ending r.0 r.1)) (omega (arith, v.end)) ∙ last,
        before 0 (omega (arith, v.end))
            ∙ v.before 0 (omega arith)
            ∙ get_or-set (started engine.words) 0 0 (bos_word bos eos text_of engines) blank_word
                (started_room engine.words),
        λ i h. before (i + 1) (omega (arith, v.end)) ∙ ap (word_at r.0) (swap i) ∙ v.at i h,
      )
