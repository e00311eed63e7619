-- ===== src/Phrase/Blocks.antt =====
-- Phrase.cc, ComputeBlocks: its loops one word at a time.
pub mod Least
use Prim.Native.Nat.{bit_or}
use memt.Prelude.{
  ℕ, zero, suc, ◌+◌, ◌-◌, ◌≤◌, ◌<◌, ◌≡◌, refl, ap, sym, ◌∙◌, Bool, true, false, ◌&&◌, List, [], ◌∷◌,
  ltb, leb, ◌==◌, inl, inr, Bool-cases, if◌then◌else◌, arith, length, modify, any_bit,
  length-modify, get_or, get_or-modify, min, max,
}
use memt.Phrase.{
  PhraseRange, PhraseWord, EndMap, System, add_block, phrase_at, add_blocks, block_end, block_ends,
  block_words, compute_blocks, phrase_punctuation, phrase_source_chunk, reset_word,
}
use mathlib.Core.Bool.{false≢true}
use native.Mathlib.Decide.{ℕ_discrete}
use memt.Phrase.EndMap.{type_of, Ascends, type_of-below}

-- The types of phrases that block.
abbrev pub blocking : ℕ → Bool
blocking type = any_bit type (bit_or phrase_punctuation phrase_source_chunk)

pub join : PhraseRange → PhraseRange → PhraseRange
join b c = record { start = min b.start c.start; end = max b.end c.end }

abbrev pub range : ℕ → ℕ → PhraseRange
range o e = record { start = o; end = e }

-- The block of word `j` after a phrase, and after the phrases that start at `offset`.
pub grow_one : ℕ → ℕ → ℕ → ℕ → PhraseRange → PhraseRange
grow_one offset j end type b =
    if blocking type && (leb offset j && leb j end) then join (range offset end) b else b

pub grow : ℕ → ℕ → EndMap → PhraseRange → PhraseRange
grow offset j [] b = b
grow offset j ((end, type) ∷ ends) b = grow offset j ends (grow_one offset j end type b)

-- The block after the phrases of the words from `o` on, `rounds` of them, in the sentence `s`.
pub grow_words : ℕ → ℕ → ℕ → System → PhraseRange → PhraseRange
grow_words zero o j s b = b
grow_words (suc rounds) o j s b = grow_words rounds (suc o) j s (grow o j (phrase_at s o).ends b)

module _ (j : ℕ) where
  at_modify :
      (f : PhraseWord → PhraseWord) (i : ℕ) (s : System)
      → j < length s
      → phrase_at (modify f i s) j ≡ (if i == j then f (phrase_at s j) else phrase_at s j)
  at_modify f i s h = get_or-modify f i j s (reset_word j) h

  length-add_blocks :
      (r i : ℕ) (b : PhraseRange) (s : System) → length (add_blocks r i b s) ≡ length s
  unfolding add_blocks
  length-add_blocks zero i b s = refl
  length-add_blocks (suc r) i b s =
      length-add_blocks r (suc i) b (modify (add_block b) i s) ∙ length-modify (add_block b) i s

  length-block_end : (o e t : ℕ) (s : System) → length (block_end o e t s) ≡ length s
  unfolding block_end
  length-block_end o e t s = ground (arith, length-add_blocks (e + 1 - o) o (range o e) s)

  length-block_ends : (o : ℕ) (ends : EndMap) (s : System) → length (block_ends o ends s) ≡ length s
  unfolding block_ends
  length-block_ends o [] s = refl
  length-block_ends o ((e, t) ∷ ends) s =
      length-block_ends o ends (block_end o e t s) ∙ length-block_end o e t s

  -- A round of the inner loop touches the words from `i` on, once each, and their blocks only.
  at_add_blocks :
      (r i : ℕ) (b : PhraseRange) (s : System)
      → j < length s
      → phrase_at (add_blocks r i b s) j
        ≡ (if leb i j && ltb j (i + r) then add_block b (phrase_at s j) else phrase_at s j)
  unfolding add_blocks
  at_add_blocks zero i b s h = ground arith
  at_add_blocks (suc r) i b s h =
      at_add_blocks r (suc i) b (modify (add_block b) i s) (rw length-modify h)
      ∙ ground (arith, at_modify (add_block b) i s h)

  at_block_end :
      (o e t : ℕ) (s : System)
      → j < length s
      → phrase_at (block_end o e t s) j
        ≡ record (phrase_at s j) { block = grow_one o j e t (phrase_at s j).block }
  unfolding block_end grow_one join
  at_block_end o e t s h = ground (arith, at_add_blocks (e + 1 - o) o (range o e) s h)

  at_block_ends :
      (o : ℕ) (ends : EndMap) (s : System)
      → j < length s
      → phrase_at (block_ends o ends s) j
        ≡ record (phrase_at s j) { block = grow o j ends (phrase_at s j).block }
  unfolding block_ends grow
  at_block_ends o [] s h = refl
  at_block_ends o ((e, t) ∷ ends) s h =
      at_block_ends o ends (block_end o e t s) (rw length-block_end h)
      ∙ ap {B = PhraseWord} (λ w. record w { block = grow o j ends w.block })
          (at_block_end o e t s h)

-- The phrases of the words stay as they are.
ends_kept :
    (o i : ℕ) (ends : EndMap) (s : System)
    → i < length s
    → (phrase_at (block_ends o ends s) i).ends ≡ (phrase_at s i).ends
ends_kept o i ends s h = ap (λ (w : PhraseWord). w.ends) (at_block_ends i o ends s h)

at_block_words :
    (j r o : ℕ) (s t : System)
    → o + r ≤ length s
    → length t ≡ length s
    → ((i : ℕ) → i < length s → (phrase_at t i).ends ≡ (phrase_at s i).ends)
    → j < length s
    → (phrase_at (block_words r o t) j).block ≡ grow_words r o j s (phrase_at t j).block
unfolding block_words grow_words
at_block_words j zero o s t room same kept h = refl
at_block_words j (suc r) o s t room same kept h =
    at_block_words j r (suc o) s (block_ends o (phrase_at t o).ends t) (omega arith)
      (length-block_ends j o (phrase_at t o).ends t ∙ same)
      (λ i k. ends_kept o i (phrase_at t o).ends t (rw same k) ∙ kept i k) h
    ∙ ap (grow_words r (suc o) j s) (
        ap {A = PhraseWord} (λ w. w.block) (at_block_ends j o (phrase_at t o).ends t (rw same h))
        ∙ ap (λ m. grow o j m (phrase_at t j).block) (kept o (omega arith)))

ends-block_words :
    (r o i : ℕ) (s : System)
    → i < length s
    → (phrase_at (block_words r o s) i).ends ≡ (phrase_at s i).ends
unfolding block_words
ends-block_words zero o i s h = refl
ends-block_words (suc r) o i s h =
    ends-block_words r (suc o) i (block_ends o (phrase_at s o).ends s) (rw length-block_ends h)
    ∙ ends_kept o i (phrase_at s o).ends s h

-- ComputeBlocks changes no phrase.
pub ends-compute_blocks :
    (s : System) (i : ℕ)
    → i < length s
    → (phrase_at (compute_blocks s) i).ends ≡ (phrase_at s i).ends
unfolding compute_blocks
ends-compute_blocks s i h = ends-block_words (length s) 0 i s h

length-block_words : (r o : ℕ) (s : System) → length (block_words r o s) ≡ length s
unfolding block_words
length-block_words zero o s = refl
length-block_words (suc r) o s =
    length-block_words r (suc o) (block_ends o (phrase_at s o).ends s)
    ∙ length-block_ends 0 o (phrase_at s o).ends s

pub length-compute_blocks : (s : System) → length (compute_blocks s) ≡ length s
unfolding compute_blocks
length-compute_blocks s = length-block_words (length s) 0 s
