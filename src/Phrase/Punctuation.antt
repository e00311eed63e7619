-- ===== src/Phrase/Punctuation.antt =====
-- DetectPunctuation and DetectAligned: which phrases they add, and that the phrases of a word end
-- behind it.
pub mod Covered
use mathlib.Core.Bool.{false≢true}
use native.Mathlib.Decide.{ℕ_discrete, dec_lt}
use Prim.Native.Nat.{bit_or}
use memt.Prelude.{
  ℕ, zero, suc, ◌+◌, ◌-◌, ◌≤◌, ◌<◌, ◌≡◌, refl, ap, subst, sym, ◌∙◌, Bool, true, false, not, ◌||◌,
  ◌&&◌, List, [], ◌∷◌, ltb, leb, ◌==◌, if◌then◌else◌, length, get_or, modify, any_bit,
  length-modify, get_or-modify, get_or_past, any_bit-bit_or, arith, inl, inr, Bool-cases, ==_self,
  &&-true,
}
use memt.Input.{Word, Engine, blank_word, is_connection, is_none, ask}
use memt.Phrase.{
  phrase_punctuation, PhraseWord, System, PhraseRange, add_end, insert_end, reset_word, phrase_at,
  compute_blocks,
}
use memt.Phrase.EndMap.{type_of, Ascends, insert_end-Ascends, type_of-insert_end, Ascends-mono}
use memt.Phrase.Blocks.Least.{IsDetected, IsBlock, compute_blocks-IsBlock}
use memt.Phrase.Blocks.{ends-compute_blocks}
use memt.Phrase.Detect.{
  detect, reset_system, add_phrase, end_run, punctuation_step, punctuation_loop, detect_punctuation,
  aligned_loop, aligned_from, detect_aligned, reset_words, from_second, continue_parallel,
  seed_parallel,
}

-- There is a phrase of one of the types `mask` from `o` through `e`.
abbrev pub HasPhrase : System → ℕ → ℕ → ℕ → Type 0
HasPhrase s o e mask = any_bit (type_of e (phrase_at s o).ends) mask ≡ true

-- Each phrase of a word ends behind the word.
abbrev pub EndsBehind : System → Type 0
EndsBehind s = (j : ℕ) → Ascends (suc j) (phrase_at s j).ends

module _ (start end type : ℕ) (s : System) (inside : start < length s) where
  at_add_phrase :
      (j : ℕ)
      → phrase_at (add_phrase start end type s) j
        ≡ (if start == j then add_end end type (phrase_at s j) else phrase_at s j)
  at_add_phrase j = elim (dec_lt j (length s)) [
    | yes h ↦ get_or-modify (add_end end type) start j s (reset_word j) h
    | no h ↦
        get_or_past (add_phrase start end type s) j (reset_word j) (rw length-modify (omega arith))
        ∙ sym (get_or_past s j (reset_word j) (omega arith))
        ∙ ground arith
  ]

  length-add_phrase : length (add_phrase start end type s) ≡ length s
  length-add_phrase = length-modify (add_end end type) start s

  block-add_phrase :
      (j : ℕ) → (phrase_at (add_phrase start end type s) j).block ≡ (phrase_at s j).block
  block-add_phrase j = ground (arith, at_add_phrase j)

  module _ (behind : EndsBehind s) (after : start < end) where
    add_phrase-EndsBehind : EndsBehind (add_phrase start end type s)
    add_phrase-EndsBehind j = elim (ℕ_discrete start j) [
      | yes same ↦ rw at_add_phrase (
          rw same (
            rw ==_self
              (insert_end-Ascends end type (suc j) (phrase_at s j).ends (omega arith) (behind j))))
      | no other ↦ ground (arith, at_add_phrase j, behind j)
    ]

    type_of-add_phrase :
        (o e : ℕ)
        → type_of e (phrase_at (add_phrase start end type s) o).ends ≡ (
            if start == o && e == end
            then bit_or (type_of e (phrase_at s o).ends) type
            else type_of e (phrase_at s o).ends)
    type_of-add_phrase o e = ground (
      arith,
      at_add_phrase o,
      type_of-insert_end end type e (suc o) (phrase_at s o).ends (behind o),
    )

    -- A phrase stays.
    add_phrase-keeps :
        (o e mask : ℕ) → HasPhrase s o e mask → HasPhrase (add_phrase start end type s) o e mask
    add_phrase-keeps o e mask h =
        rw type_of-add_phrase
          (ground (arith, any_bit-bit_or (type_of e (phrase_at s o).ends) type mask))

    add_phrase-adds :
        (mask : ℕ)
        → any_bit type mask ≡ true
        → HasPhrase (add_phrase start end type s) start end mask
    add_phrase-adds mask h =
        rw type_of-add_phrase
          (ground (arith, any_bit-bit_or (type_of end (phrase_at s start).ends) type mask))

-- What a detector keeps of a sentence of `n` words: the length, the blocks as they were, and that
-- phrases end behind their word.
pub record IsWellFormed (n : ℕ) (s : System) : Type 0 where
  pub sized : length s ≡ n
  pub fresh : (j : ℕ) → (phrase_at s j).block ≡ record { start = j; end = j }
  pub behind : EndsBehind s

add_phrase-IsWellFormed :
    (n start end type : ℕ) (s : System)
    → start < n
    → start < end
    → IsWellFormed n s
    → IsWellFormed n (add_phrase start end type s)
add_phrase-IsWellFormed n start end type s h k v =
    let inside : start < length s = omega (arith, v.sized) in
    record {
      sized = length-add_phrase start end type s inside ∙ v.sized;
      fresh = λ j. block-add_phrase start end type s inside j ∙ v.fresh j;
      behind = add_phrase-EndsBehind start end type s inside v.behind k;
    }

-- A phrase that is open at word `i` is added if the word is no punctuation.
unfoldable pub close_phrase : Word → ℕ → ℕ → Bool → System → System
close_phrase w i start opened system =
    if opened && not w.text.is_punctuation
    then add_phrase start (i - 1) phrase_punctuation system
    else system

-- A phrase is open behind a word exactly if the word is punctuation.
pub punctuation_loop_cons :
    (w : Word) (ws : List Word) (i start : ℕ) (opened : Bool) (s : System)
    → punctuation_loop (w ∷ ws) i start opened s
      ≡ punctuation_loop ws
          (suc i)
          (if w.text.is_punctuation && not opened then i - 1 else start)
          w.text.is_punctuation
          (close_phrase w i start opened s)
unfolding punctuation_loop punctuation_step close_phrase
punctuation_loop_cons w ws i start true s = elim (Bool-cases w.text.is_punctuation) [
  | inl mark ↦ rw mark refl
  | inr plain ↦ rw plain refl
]
punctuation_loop_cons w ws i start false s = elim (Bool-cases w.text.is_punctuation) [
  | inl mark ↦ rw mark refl
  | inr plain ↦ rw plain refl
]

module _ (w : Word) (n i start : ℕ) (opened : Bool) (s : System) (small : i ≤ n)
    (room : opened ≡ true → start + 2 ≤ i) (v : IsWellFormed n s) where
  -- An open phrase starts two words before the next one to read.
  pub next_room :
      0 < i
      → w.text.is_punctuation ≡ true
      → (if w.text.is_punctuation && not opened then i - 1 else start) + 2 ≤ suc i
  next_room p e = ground (arith, room)

  pub close_phrase-IsWellFormed : IsWellFormed n (close_phrase w i start opened s)
  unfolding close_phrase
  close_phrase-IsWellFormed = elim (Bool-cases (opened && not w.text.is_punctuation)) [
    | inl closes ↦
        let r = room (&&-true closes).0 in
        rw closes (add_phrase-IsWellFormed n start (i - 1) 1 s (omega arith) (omega arith) v)
    | inr stays ↦ rw stays v
  ]

  pub close_phrase-keeps :
      (o e mask : ℕ) → HasPhrase s o e mask → HasPhrase (close_phrase w i start opened s) o e mask
  unfolding close_phrase
  close_phrase-keeps o e mask k = elim (Bool-cases (opened && not w.text.is_punctuation)) [
    | inl closes ↦
        let r = room (&&-true closes).0 in
        rw closes (
          add_phrase-keeps start (i - 1) 1 s (rw v.sized (omega arith)) v.behind (omega arith) o e
            mask k)
    | inr stays ↦ rw stays k
  ]

pub punctuation_loop-IsWellFormed :
    (ws : List Word) (n i start : ℕ) (opened : Bool) (s : System)
    → i + length ws ≤ n
    → 0 < i
    → (opened ≡ true → start + 2 ≤ i)
    → IsWellFormed n s
    → IsWellFormed n (punctuation_loop ws i start opened s).0
unfolding punctuation_loop
punctuation_loop-IsWellFormed [] n i start opened s h p o v = v
punctuation_loop-IsWellFormed (w ∷ ws) n i start opened s h p o v =
    subst (λ (r : System × Bool). IsWellFormed n r.0)
      (sym (punctuation_loop_cons w ws i start opened s))
      (punctuation_loop-IsWellFormed ws n (suc i) _ _ _ (omega arith) (omega arith)
        (next_room w n i start opened s (omega arith) o v p)
        (close_phrase-IsWellFormed w n i start opened s (omega arith) o v))

module _ (cut : Bool) (n word start : ℕ) (s : System) (h : start < word) (k : word ≤ n)
    (v : IsWellFormed n s) where
  pub end_run-IsWellFormed : IsWellFormed n (end_run cut word start s)
  unfolding end_run
  end_run-IsWellFormed = elim (Bool-cases (cut && not (start == word - 1))) [
    | inl ends ↦
        rw ends (add_phrase-IsWellFormed n start (word - 1) 2 s (omega arith) (ground arith) v)
    | inr goes_on ↦ rw goes_on v
  ]

  pub end_run-keeps :
      (o e mask : ℕ) → HasPhrase s o e mask → HasPhrase (end_run cut word start s) o e mask
  unfolding end_run
  end_run-keeps o e mask p = elim (Bool-cases (cut && not (start == word - 1))) [
    | inl ends ↦ rw ends (
        add_phrase-keeps start (word - 1) 2 s (rw v.sized (omega arith)) v.behind (ground arith) o e
          mask p)
    | inr goes_on ↦ rw goes_on p
  ]

pub aligned_loop-IsWellFormed :
    (ws : List Word) (n word start : ℕ) (parallel : List (ℕ × ℕ)) (s : System)
    → word + length ws ≤ n
    → start < word
    → IsWellFormed n s
    → IsWellFormed n (aligned_loop ws word start parallel s)
unfolding aligned_loop
aligned_loop-IsWellFormed [] n word start parallel s h k v =
    elim (Bool-cases (ltb (start + 1) word)) [
      | inl long ↦
          rw long (add_phrase-IsWellFormed n start (word - 1) 2 s (omega arith) (ground arith) v)
      | inr short ↦ rw short v
    ]
aligned_loop-IsWellFormed (w ∷ ws) n word start parallel s h k v =
    aligned_loop-IsWellFormed ws n (suc word) _ _ _ (omega arith) (ground arith)
      (end_run-IsWellFormed _ n word start s k (omega arith) v)

reset_words_at :
    (ws : List Word) (i j : ℕ)
    → j < length ws
    → get_or (reset_words i ws) j (reset_word (i + j)) ≡ reset_word (i + j)
unfolding reset_words
reset_words_at [] i j h = absurd (omega arith)
reset_words_at (w ∷ ws) i zero h = ap reset_word (omega arith)
reset_words_at (w ∷ ws) i (suc j) h =
    let e : i + suc j ≡ suc i + j = omega arith in rw e (reset_words_at ws (suc i) j (omega arith))

length-reset_words : (ws : List Word) (i : ℕ) → length (reset_words i ws) ≡ length ws
unfolding reset_words
length-reset_words [] i = refl
length-reset_words (w ∷ ws) i = ap suc (length-reset_words ws (suc i))

fresh_word : (ws : List Word) (j : ℕ) → phrase_at (reset_words 0 ws) j ≡ reset_word j
fresh_word ws j = elim (dec_lt j (length ws)) [
  | yes h ↦ let e : 0 + j ≡ j = omega arith in rw e at (reset_words_at ws 0 j h)
  | no h ↦ get_or_past (reset_words 0 ws) j (reset_word j) (rw length-reset_words (omega arith))
]

pub reset_words-IsWellFormed : (ws : List Word) → IsWellFormed (length ws) (reset_words 0 ws)
reset_words-IsWellFormed ws = record {
  sized = length-reset_words ws 0;
  fresh = λ j. rw fresh_word refl;
  behind = λ j. rw fresh_word tt;
}

pub detect_punctuation-IsWellFormed :
    (engine : Engine) (s : System)
    → IsWellFormed (length engine.words) s
    → IsWellFormed (length engine.words) (detect_punctuation engine s).0
unfolding detect_punctuation punctuation_loop
detect_punctuation-IsWellFormed engine s v = from engine.words v
  where
    from :
        (ws : List Word)
        → IsWellFormed (length ws) s
        → IsWellFormed (length ws) (punctuation_loop (from_second ws) 1 0 false s).0
    from [] v = v
    from (w ∷ ws) v =
        punctuation_loop-IsWellFormed ws (suc (length ws)) 1 0 false s (omega arith) (omega arith)
          (λ e. absurd (false≢true e)) v

pub detect_aligned-IsWellFormed :
    (engine : Engine) (s : System)
    → IsWellFormed (length engine.words) s
    → IsWellFormed (length engine.words) (detect_aligned engine s)
unfolding detect_aligned
detect_aligned-IsWellFormed engine s v = from engine.words v
  where
    from :
        (ws : List Word) → IsWellFormed (length ws) s → IsWellFormed (length ws) (aligned_from ws s)
    from [] v = v
    from (w ∷ []) v = v
    from (w ∷ first ∷ ws) v =
        aligned_loop-IsWellFormed ws (suc (suc (length ws))) 2 1 _ s (omega arith) (omega arith) v

pub detect-IsWellFormed :
    (types : ℕ) (engine : Engine) → IsWellFormed (length engine.words) (detect types engine)
unfolding detect
detect-IsWellFormed types engine = elim (Bool-cases (any_bit types 1)) [
  | inl p ↦
      rw p (
        aligned _
          (detect_punctuation-IsWellFormed engine _ (reset_words-IsWellFormed engine.words)))
  | inr p ↦ rw p (aligned _ (reset_words-IsWellFormed engine.words))
]
  where
    aligned :
        (s : System)
        → IsWellFormed (length engine.words) s
        → IsWellFormed
            (length engine.words)
            (if any_bit types 2 then detect_aligned engine s else s)
    aligned s v = elim (Bool-cases (any_bit types 2)) [
      | inl q ↦ rw q (detect_aligned-IsWellFormed engine s v)
      | inr q ↦ rw q v
    ]

pub detect-IsDetected : (types : ℕ) (engine : Engine) → IsDetected (detect types engine)
detect-IsDetected types engine =
    let v = detect-IsWellFormed types engine in
    record {
      fresh = v.fresh;
      ascending = λ j.
          Ascends-mono 0 (suc j) (phrase_at (detect types engine) j).ends (omega arith)
            (v.behind j);
    }

-- Whatever types of phrases are asked for, each phrase of a word ends behind the word.
pub reset_system-EndsBehind :
    (types : ℕ) (engine : Engine) (j : ℕ)
    → j < length engine.words
    → Ascends (suc j) (phrase_at (reset_system types engine) j).ends
unfolding reset_system
reset_system-EndsBehind types engine j h =
    let v = detect-IsWellFormed types engine in
    rw (ends-compute_blocks (detect types engine) j (rw v.sized h)) (v.behind j)

-- After System::Reset the block of each word of the sentence is the least range that has the word
-- and every blocking phrase that was detected around it.
pub reset_system-IsBlock :
    (types : ℕ) (engine : Engine) (j : ℕ)
    → j < length engine.words
    → IsBlock (detect types engine) j (phrase_at (reset_system types engine) j).block
unfolding reset_system
reset_system-IsBlock types engine j h =
    let v = detect-IsWellFormed types engine in
    compute_blocks-IsBlock (detect types engine) j (detect-IsDetected types engine) (rw v.sized h)
