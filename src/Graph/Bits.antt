-- ===== src/Graph/Bits.antt =====
-- Each word has a bit of its own, and Extend sets the bits of the words that are aligned.
use memt.Prelude.{
  ℕ, zero, suc, ◌+◌, ◌≤◌, ◌<◌, ◌≡◌, ◌∙◌, refl, ap, ap₂, subst, Bool, true, false, ◌&&◌, ◌||◌, List,
  [], ◌∷◌, ◌==◌, if◌then◌else◌, length, get_or, set, arith, inl, inr, Bool-cases, length-set,
  get_or-set,
}
use memt.Input.{
  Engine, Input, Location, AlignmentInfo, WordAlignments, ask, is_connection, engine_length,
  get_engine, get_word, num_engines, blank_engine,
}
use memt.Graph.{starts_from, bit_size, bit, is_covered, cover_aligned, extend_bits}

abbrev length_at : List Engine → ℕ → ℕ
length_at engines e = engine_length (get_or engines e blank_engine)

bit_size-le : (start : ℕ) (engines : List Engine) → start ≤ bit_size start engines
unfolding bit_size
bit_size-le start [] = omega arith
bit_size-le start (e ∷ engines) = omega (arith, bit_size-le (start + engine_length e) engines)

-- The bits of a word lie behind the start and within the size.
starts_range :
    (start e o : ℕ) (engines : List Engine)
    → e < length engines
    → o < length_at engines e
    → (start ≤ get_or (starts_from start engines) e 0 + o)
      × (get_or (starts_from start engines) e 0 + o < bit_size start engines)
unfolding starts_from bit_size
starts_range start e o [] h k = absurd (omega arith)
starts_range start zero o (f ∷ engines) h k =
    omega (arith, bit_size-le (start + engine_length f) engines)
starts_range start (suc e) o (f ∷ engines) h k =
    omega (arith, starts_range (start + engine_length f) e o engines)

starts_injective :
    (start e o f p : ℕ) (engines : List Engine)
    → e < length engines
    → o < length_at engines e
    → f < length engines
    → p < length_at engines f
    → get_or (starts_from start engines) e 0 + o ≡ get_or (starts_from start engines) f 0 + p
    → (e ≡ f) × (o ≡ p)
unfolding starts_from
starts_injective start e o f p [] h k i j same = absurd (omega arith)
starts_injective start zero o zero p (g ∷ engines) h k i j same = (refl, omega arith)
starts_injective start zero o (suc f) p (g ∷ engines) h k i j same =
    absurd (omega (arith, starts_range (start + engine_length g) f p engines))
starts_injective start (suc e) o zero p (g ∷ engines) h k i j same =
    absurd (omega (arith, starts_range (start + engine_length g) e o engines))
starts_injective start (suc e) o (suc f) p (g ∷ engines) h k i j same =
    let (engine, offset) =
      starts_injective (start + engine_length g) e o f p engines (omega arith) k (omega arith) j
        same in
    (ap suc engine, offset)

-- A word of a sentence.
abbrev pub IsPlace : Input → ℕ → ℕ → Type 0
IsPlace text e o = (e < num_engines text) × (o < engine_length (get_engine text e))

-- No two words of the sentences have the same bit, and the bits have room for each of them.
pub bit_injective :
    (text : Input) (e o f p : ℕ)
    → IsPlace text e o
    → IsPlace text f p
    → (bit text e o ≡ bit text f p → (e ≡ f) × (o ≡ p)) × (bit text e o < bit_size 0 text.engines)
unfolding bit
bit_injective text e o f p h k = (
  starts_injective 0 e o f p text.engines h.0 h.1 k.0 k.1,
  (starts_range 0 e o text.engines h.0 h.1).1,
)

module _ (text : Input) (f p : ℕ) (place : IsPlace text f p) where
  -- Word `p` of engine `f` is what the alignment to engine `e` is to.
  abbrev hits : ℕ → AlignmentInfo → Bool
  hits e al = is_connection al && (e == f && al.offset == p)

  hit :
      {e o a b : ℕ} (old : Bool)
      → (a ≡ b → (e ≡ f) × (o ≡ p))
      → (e ≡ f → o ≡ p → a ≡ b)
      → (if a == b then true else old) ≡ (e == f && o == p) || old
  hit old back forth = ground (arith, back, forth)

  cover_one :
      (e : ℕ) (al : AlignmentInfo) (bits : List Bool)
      → length bits ≡ bit_size 0 text.engines
      → (is_connection al ≡ true → IsPlace text e al.offset)
      → is_covered text
          (if is_connection al then set bits (bit text e al.offset) true else bits)
          f
          p
        ≡ hits e al || is_covered text bits f p
  cover_one e al bits sized inside = elim (Bool-cases (is_connection al)) [
    | inr none ↦ rw none refl
    | inl c ↦
        let (injective, room) = bit_injective text e al.offset f p (inside c) place in
        rw c (
          get_or-set bits (bit text e al.offset) (bit text f p) true false (omega arith)
          ∙ hit (is_covered text bits f p) injective (λ x y. ap₂ (bit text) x y))
  ]

  length-cover_one :
      (e : ℕ) (al : AlignmentInfo) (bits : List Bool)
      → length (if is_connection al then set bits (bit text e al.offset) true else bits)
        ≡ length bits
  length-cover_one e al bits = elim (Bool-cases (is_connection al)) [
    | inl c ↦ rw c (length-set bits (bit text e al.offset) true)
    | inr n ↦ rw n refl
  ]

  -- Some alignment from engine `e` on hits the word.
  hits_from : ℕ → WordAlignments → Bool
  hits_from e [] = false
  hits_from e (al ∷ alignments) = hits e al || hits_from (suc e) alignments

  cover_aligned-hits_from :
      (e : ℕ) (alignments : WordAlignments) (bits : List Bool)
      → length bits ≡ bit_size 0 text.engines
      → ((k : ℕ)
          → is_connection (ask alignments k) ≡ true
          → IsPlace text (e + k) (ask alignments k).offset)
      → is_covered text (cover_aligned text e alignments bits) f p
        ≡ hits_from e alignments || is_covered text bits f p
  unfolding cover_aligned hits_from
  cover_aligned-hits_from e [] bits sized inside = refl
  cover_aligned-hits_from e (al ∷ alignments) bits sized inside =
      cover_aligned-hits_from (suc e) alignments _ (length-cover_one e al bits ∙ sized) (λ k c.
        let same : e + suc k ≡ suc e + k = omega arith in
        subst (λ i. IsPlace text i (ask alignments k).offset) same (inside (suc k) c))
      ∙ ground (
        arith,
        cover_one e al bits sized (λ c.
            let same : e + 0 ≡ e = omega arith in
            subst (λ i. IsPlace text i al.offset) same (inside 0 c)),
      )

  hits_from-before : (e : ℕ) (alignments : WordAlignments) → f < e → hits_from e alignments ≡ false
  unfolding hits_from
  hits_from-before e [] h = refl
  hits_from-before e (al ∷ alignments) h = ground (arith, hits_from-before (suc e) alignments)

  hits_from-ask :
      (e k : ℕ) (alignments : WordAlignments)
      → f ≡ e + k
      → hits_from e alignments ≡ is_connection (ask alignments k) && (ask alignments k).offset == p
  unfolding hits_from
  hits_from-ask e k [] h = refl
  hits_from-ask e zero (al ∷ alignments) h = ground (arith, hits_from-before (suc e) alignments)
  hits_from-ask e (suc k) (al ∷ alignments) h = ground (arith, hits_from-ask (suc e) k alignments)

-- Extend covers, of the words of the sentences, exactly those that the given word is aligned to, and
-- keeps what was covered before. The conditions: there is a bit for each word, and each alignment of
-- the word is to a word of a sentence.
pub is_covered-extend_bits :
    (text : Input) (to : Location) (bits : List Bool) (f p : ℕ)
    → length bits ≡ bit_size 0 text.engines
    → ((e : ℕ)
        → is_connection (ask (get_word text to.engine to.offset).alignments e) ≡ true
        → IsPlace text e (ask (get_word text to.engine to.offset).alignments e).offset)
    → IsPlace text f p
    → is_covered text (extend_bits text to bits) f p
      ≡ (is_connection (ask (get_word text to.engine to.offset).alignments f)
          && (ask (get_word text to.engine to.offset).alignments f).offset == p)
        || is_covered text bits f p
unfolding extend_bits
is_covered-extend_bits text to bits f p sized inside place =
    let al = (get_word text to.engine to.offset).alignments in
    ground (
      arith,
      cover_aligned-hits_from text f p place 0 al bits sized (λ k c.
          let same : k ≡ 0 + k = omega arith in
          subst (λ i. IsPlace text i (ask al k).offset) same (inside k c)),
      hits_from-ask text f p place 0 f al (omega arith),
    )
