-- ===== src/Horizon/Hypothesis/Aligned.antt =====
-- What Alignments uses up: the chosen word, and the blocks of the words that it is aligned to.
use memt.Prelude.{
  ℕ, zero, suc, ◌+◌, ◌-◌, ◌≤◌, ◌<◌, ◌≡◌, refl, ap, sym, ◌∙◌, Bool, not, ◌&&◌, ◌||◌, List, [], ◌∷◌,
  ltb, leb, ◌==◌, if◌then◌else◌, length, get_or, modify, arith, inl, inr, Bool-cases, word_mod,
  ==_iff, get_or-modify, length-modify,
}
use memt.Input.{
  Input, Location, WordAlignments, AlignmentInfo, is_none, is_connection, ask, get_word,
  no_alignment,
}
use memt.Phrase.{System, PhraseRange, phrase_at}
use memt.Horizon.Coverage.{Coverage, initialize_root, use_word, is_used}
use memt.Horizon.Coverage.Set.{is_used-use_word}
use memt.Horizon.Coverage.Canonical.{IsValid, IsValid-Fits, use_word-IsValid}
use memt.Horizon.Hypothesis.{
  Hypothesis, coverage_of, is_used_in, use_range, use_block, align_loop, alignments, system_at,
}

use_range-IsValid :
    (r j n : ℕ) (c : Coverage)
    → j + r ≤ n
    → n + 1 < word_mod
    → IsValid n c
    → IsValid n (use_range r j c)
unfolding use_range
use_range-IsValid zero j n c h k v = v
use_range-IsValid (suc r) j n c h k v =
    use_range-IsValid r (suc j) n (use_word c j) (omega arith) k
      (use_word-IsValid n c k v j (omega arith))

-- A range of words is used, and no other.
is_used-use_range :
    (r j n o : ℕ) (c : Coverage)
    → j + r ≤ n
    → n + 1 < word_mod
    → o < word_mod
    → IsValid n c
    → is_used (use_range r j c) o ≡ (leb j o && ltb o (j + r)) || is_used c o
unfolding use_range
is_used-use_range zero j n o c h k s v = ground arith
is_used-use_range (suc r) j n o c h k s v =
    is_used-use_range r (suc j) n o (use_word c j) (omega arith) k s
      (use_word-IsValid n c k v j (omega arith))
    ∙ ground (arith, is_used-use_word c j o (IsValid-Fits n c k v) (omega arith) s)

module _ (own : ℕ) (phrase : List System) where
  length-align_loop :
      (al : WordAlignments) (i : ℕ) (h : Hypothesis)
      → length (align_loop al i own phrase h) ≡ length h
  unfolding align_loop
  length-align_loop [] i h = refl
  length-align_loop (info ∷ al) i h =
      length-align_loop al (suc i) (modify (use_block own phrase i info) i h)
      ∙ length-modify (use_block own phrase i info) i h

  at_modify :
      (info : AlignmentInfo) (i e : ℕ) (h : Hypothesis)
      → e < length h
      → coverage_of (modify (use_block own phrase i info) i h) e
        ≡ (if i == e then use_block own phrase i info (coverage_of h e) else coverage_of h e)
  at_modify info i e h q = get_or-modify (use_block own phrase i info) i e h initialize_root q

  align_loop_before :
      (al : WordAlignments) (i e : ℕ) (h : Hypothesis)
      → e < i
      → e < length h
      → coverage_of (align_loop al i own phrase h) e ≡ coverage_of h e
  unfolding align_loop
  align_loop_before [] i e h p q = refl
  align_loop_before (info ∷ al) i e h p q =
      align_loop_before al (suc i) e (modify (use_block own phrase i info) i h) (omega arith)
        (rw length-modify q)
      ∙ ground (arith, at_modify info i e h q)

  use_block_none : (e : ℕ) (c : Coverage) → use_block own phrase e no_alignment c ≡ c
  unfolding use_block
  use_block_none e c = ground arith

  -- The loop uses up the block of engine `e` when it comes to that engine.
  align_loop_at :
      (al : WordAlignments) (i d e : ℕ) (h : Hypothesis)
      → i + d ≡ e
      → e < length h
      → coverage_of (align_loop al i own phrase h) e
        ≡ use_block own phrase e (get_or al d no_alignment) (coverage_of h e)
  unfolding align_loop
  align_loop_at [] i d e h p q = sym (use_block_none e (coverage_of h e))
  align_loop_at (info ∷ al) i zero e h p q =
      let here : i ≡ e = omega arith in
      align_loop_before al (suc i) e (modify (use_block own phrase i info) i h) (omega arith)
        (rw length-modify q)
      ∙ ground (
        arith,
        at_modify info i e h q,
        ap (λ k. use_block own phrase k info (coverage_of h e)) here,
      )
  align_loop_at (info ∷ al) i (suc d) e h p q =
      align_loop_at al (suc i) d e (modify (use_block own phrase i info) i h) (omega arith)
        (rw length-modify q)
      ∙ ap (use_block own phrase e (get_or al d no_alignment))
          (ground (arith, at_modify info i e h q))

-- The words of engine `e` that are used up with a word of engine `own` by the alignment `info`.
abbrev pub in_block : List System → ℕ → ℕ → AlignmentInfo → ℕ → Bool
in_block phrase own e info o =
    let block = (phrase_at (system_at phrase e) info.offset).block in
    is_connection info && not (e == own) && (leb block.start o && leb o block.end)

-- A block of words of a sentence of `n` words.
abbrev pub IsRange : ℕ → PhraseRange → Type 0
IsRange n b = (b.start ≤ b.end) × (b.end < n)

abbrev pub block_at : List System → ℕ → AlignmentInfo → PhraseRange
block_at phrase e info = (phrase_at (system_at phrase e) info.offset).block

module _ (own : ℕ) (phrase : List System) (info : AlignmentInfo) (e n o : ℕ) (c : Coverage)
    (v : IsValid n c) (room : n + 1 < word_mod) (block : IsRange n (block_at phrase e info)) where
  block_used :
      o < word_mod
      → is_used (use_block own phrase e info c) o ≡ in_block phrase own e info o || is_used c o
  unfolding use_block
  block_used small =
      let b = block_at phrase e info in
      ground
        (arith, is_used-use_range (b.end + 1 - b.start) b.start n o c (omega arith) room small v)

  use_block-IsValid : IsValid n (use_block own phrase e info c)
  unfolding use_block
  use_block-IsValid =
      let b = block_at phrase e info in
      elim (Bool-cases (e == own || is_none info)) [
        | inl skip ↦ rw skip v
        | inr uses ↦
            rw uses (use_range-IsValid (b.end + 1 - b.start) b.start n c (omega arith) room v)
      ]

module _ (text : Input) (phrase : List System) (to : Location) (h : Hypothesis) (e : ℕ)
    (inside : e < length h) where
  abbrev info : AlignmentInfo
  info = ask (get_word text to.engine to.offset).alignments e

  -- The coverage of engine `e` after Alignments.
  coverage_of-alignments : coverage_of (alignments text phrase to h) e ≡ (
      let c = use_block to.engine phrase e info (coverage_of h e) in
      if to.engine == e then use_word c to.offset else c)
  unfolding alignments
  coverage_of-alignments =
      let al = (get_word text to.engine to.offset).alignments in
      get_or-modify (λ c. use_word c to.offset) to.engine e (align_loop al 0 to.engine phrase h)
        initialize_root (rw (length-align_loop to.engine phrase al 0 h) inside)
      ∙ ap {A = Coverage} (λ c. if to.engine == e then use_word c to.offset else c)
          (align_loop_at to.engine phrase al 0 e e h (omega arith) inside)

-- The alignment of the chosen word to engine `e`.
abbrev pub aligned_to : Input → Location → ℕ → AlignmentInfo
aligned_to text to e = ask (get_word text to.engine to.offset).alignments e

-- Alignments uses up, in the coverage of engine `e`, the chosen word if it is a word of `e`, and else
-- the block of the word of `e` that the chosen word is aligned to, if there is one; all other words
-- stay as they were. The conditions: `e` is an engine whose coverage is valid, the block is one of its
-- sentence, and lengths and offsets fit in 32 bits.
pub is_used-alignments :
    (text : Input) (phrase : List System) (to : Location) (h : Hypothesis) (n e o : ℕ)
    → e < length h
    → n + 1 < word_mod
    → o < word_mod
    → IsValid n (coverage_of h e)
    → to.offset < word_mod
    → IsRange n (block_at phrase e (aligned_to text to e))
    → is_used_in (alignments text phrase to h) e o
      ≡ ((to.engine == e && o == to.offset) || in_block phrase to.engine e (aligned_to text to e) o)
        || is_used_in h e o
is_used-alignments text phrase to h n e o inside room small v word block =
    let info = ask (get_word text to.engine to.offset).alignments e in
    let c = coverage_of h e in
    let u = use_block-IsValid to.engine phrase info e n o c v room block in
    ap {A = Coverage} (λ c. is_used c o) (coverage_of-alignments text phrase to h e inside)
    ∙ ground (
      arith,
      block_used to.engine phrase info e n o c v room block small,
      is_used-use_word (use_block to.engine phrase e info c) to.offset o (IsValid-Fits n _ room u)
          (omega arith) small,
    )

-- Alignments of a word of the sentence, with the block in its sentence, whose length fits in 32 bits,
-- keeps the invariant of
-- the coverage of engine `e`.
pub alignments-IsValid :
    (text : Input) (phrase : List System) (to : Location) (h : Hypothesis) (n e : ℕ)
    → e < length h
    → n + 1 < word_mod
    → IsValid n (coverage_of h e)
    → (to.engine ≡ e → to.offset < n)
    → IsRange n (block_at phrase e (aligned_to text to e))
    → IsValid n (coverage_of (alignments text phrase to h) e)
alignments-IsValid text phrase to h n e inside room v word block =
    let info = ask (get_word text to.engine to.offset).alignments e in
    let u = use_block-IsValid to.engine phrase info e n 0 (coverage_of h e) v room block in
    rw coverage_of-alignments (elim (Bool-cases (to.engine == e)) [
      | inl same ↦ rw same (use_word-IsValid n _ room u to.offset (word ((==_iff _ _).0 same)))
      | inr other ↦ rw other u
    ])
