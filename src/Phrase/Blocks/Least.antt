-- ===== src/Phrase/Blocks/Least.antt =====
-- The blocks that ComputeBlocks leaves, as least ranges.
use memt.Prelude.{ℕ, zero, suc, ◌+◌, ◌≤◌, ◌<◌, ◌≡◌, refl, true, false, [], ◌∷◌, arith, length}
use mathlib.Core.Bool.{false≢true}
use native.Mathlib.Decide.{ℕ_discrete}
use memt.Phrase.{PhraseRange, EndMap, System, phrase_at, compute_blocks}
use memt.Phrase.EndMap.{type_of, Ascends, type_of-below}
use memt.Phrase.Blocks.{blocking, join, range, grow_one, grow, grow_words, at_block_words}

-- `b` includes `c`.
abbrev pub Includes : PhraseRange → PhraseRange → Type 0
Includes b c = (b.start ≤ c.start) × (c.end ≤ b.end)

grow_one-Includes : (o j e t : ℕ) (b : PhraseRange) → Includes (grow_one o j e t b) b
unfolding grow_one join
grow_one-Includes o j e t b = ground arith

grow-Includes : (o j : ℕ) (m : EndMap) (b : PhraseRange) → Includes (grow o j m b) b
unfolding grow
grow-Includes o j [] b = omega arith
grow-Includes o j ((e, t) ∷ m) b =
    omega (arith, grow-Includes o j m (grow_one o j e t b), grow_one-Includes o j e t b)

grow_words-Includes : (r o j : ℕ) (s : System) (b : PhraseRange) → Includes (grow_words r o j s b) b
unfolding grow_words
grow_words-Includes zero o j s b = omega arith
grow_words-Includes (suc r) o j s b = omega (
  arith,
  grow_words-Includes r (suc o) j s (grow o j (phrase_at s o).ends b),
  grow-Includes o j (phrase_at s o).ends b,
)

-- A phrase that blocks and that word `j` is in is included in its block.
grow-covers :
    (o j e : ℕ) (m : EndMap) (b : PhraseRange)
    → blocking (type_of e m) ≡ true
    → o ≤ j
    → j ≤ e
    → Includes (grow o j m b) (range o e)
unfolding grow grow_one join type_of
grow-covers o j e [] b k p q = absurd (false≢true k)
grow-covers o j e ((f, t) ∷ m) b k p q =
    ground (
      arith,
      grow-Includes o j m (grow_one o j f t b),
      grow-covers o j e m (grow_one o j f t b),
      one,
    )
  where
    one : blocking t ≡ true → e ≡ f → Includes (grow_one o j f t b) (range o e)
    one found same = ground arith

grow_words-covers :
    (r o j i e : ℕ) (s : System) (b : PhraseRange)
    → o ≤ i
    → i < o + r
    → blocking (type_of e (phrase_at s i).ends) ≡ true
    → i ≤ j
    → j ≤ e
    → Includes (grow_words r o j s b) (range i e)
unfolding grow_words
grow_words-covers zero o j i e s b l u k p q = absurd (omega arith)
grow_words-covers (suc r) o j i e s b l u k p q = elim (ℕ_discrete o i) [
  | yes same ↦ omega (
    arith,
    grow_words-Includes r (suc o) j s (grow o j (phrase_at s o).ends b),
    grow-covers o j e (phrase_at s o).ends b (rw same k) (omega arith) q,
  )
  | no other ↦
      grow_words-covers r (suc o) j i e s (grow o j (phrase_at s o).ends b) (omega arith)
        (omega arith) k p q
]

module _ (j lo hi : ℕ) where
  -- The blocking phrases at `o` that word `j` is in lie between `lo` and `hi`.
  abbrev pub Bounded : ℕ → EndMap → Type 0
  Bounded o m = (e : ℕ) → blocking (type_of e m) ≡ true → o ≤ j → j ≤ e → (lo ≤ o) × (e ≤ hi)

  Bounded-tail :
      (o e t first : ℕ) (m : EndMap)
      → Ascends first ((e, t) ∷ m)
      → Bounded o ((e, t) ∷ m)
      → Bounded o m
  unfolding type_of
  Bounded-tail o e t first m a h f k p q =
      ground (arith, h f, type_of-below f (suc e) m a.1, blocking_zero)
    where
      blocking_zero : blocking 0 ≡ false
      blocking_zero = refl

  grow_one-tight :
      (o e t : ℕ) (m : EndMap) (b : PhraseRange)
      → Bounded o ((e, t) ∷ m)
      → Includes (range lo hi) b
      → Includes (range lo hi) (grow_one o j e t b)
  unfolding grow_one join type_of
  grow_one-tight o e t m b h i = ground (arith, h e)

  grow-tight :
      (o first : ℕ) (m : EndMap) (b : PhraseRange)
      → Ascends first m
      → Bounded o m
      → Includes (range lo hi) b
      → Includes (range lo hi) (grow o j m b)
  unfolding grow
  grow-tight o first [] b a h i = i
  grow-tight o first ((e, t) ∷ m) b a h i =
      grow-tight o (suc e) m (grow_one o j e t b) a.1 (Bounded-tail o e t first m a h)
        (grow_one-tight o e t m b h i)

  grow_words-tight :
      (r o : ℕ) (s : System) (b : PhraseRange)
      → ((i : ℕ) → Ascends 0 (phrase_at s i).ends)
      → ((i : ℕ) → o ≤ i → i < o + r → Bounded i (phrase_at s i).ends)
      → Includes (range lo hi) b
      → Includes (range lo hi) (grow_words r o j s b)
  unfolding grow_words
  grow_words-tight zero o s b a h i = i
  grow_words-tight (suc r) o s b a h i =
      grow_words-tight r (suc o) s (grow o j (phrase_at s o).ends b) a
        (λ k p q. h k (omega arith) (omega arith))
        (grow-tight o 0 (phrase_at s o).ends b (a o) (h o (omega arith) (omega arith)) i)

-- A sentence whose phrases are detected and whose blocks are not computed yet.
pub record IsDetected (s : System) : Type 0 where
  pub fresh : (j : ℕ) → (phrase_at s j).block ≡ range j j
  pub ascending : (j : ℕ) → Ascends 0 (phrase_at s j).ends

-- The block of a word: the least range that has the word and each blocking phrase it is in.
pub record IsBlock (s : System) (j : ℕ) (b : PhraseRange) : Type 0 where
  pub own : Includes b (range j j)
  pub covers :
      (o e : ℕ)
      → o < length s
      → blocking (type_of e (phrase_at s o).ends) ≡ true
      → o ≤ j
      → j ≤ e
      → Includes b (range o e)
  pub least :
      (lo hi : ℕ)
      → Includes (range lo hi) (range j j)
      → ((o : ℕ) → o < length s → Bounded j lo hi o (phrase_at s o).ends)
      → Includes (range lo hi) b

-- ComputeBlocks leaves, for each word of the sentence, the least range that has the word and every
-- punctuation or source-chunk phrase that the word is in.
pub compute_blocks-IsBlock :
    (s : System) (j : ℕ)
    → IsDetected s
    → j < length s
    → IsBlock s j (phrase_at (compute_blocks s) j).block
unfolding compute_blocks
compute_blocks-IsBlock s j d h =
    rw (at_block_words j (length s) 0 s s (omega arith) refl (λ i k. refl) h, d.fresh j)
      (record {
        own = grow_words-Includes (length s) 0 j s (range j j);
        covers = λ o e k g p q.
            grow_words-covers (length s) 0 j o e s (range j j) (omega arith) (omega arith) g p q;
        least = λ lo hi i g.
            grow_words-tight j lo hi (length s) 0 s (range j j) d.ascending
              (λ o p q. g o (omega arith)) i;
      })
