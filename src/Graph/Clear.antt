-- ===== src/Graph/Clear.antt =====
-- Each word that is appended covers a bit more, since it is aligned to itself.
use memt.Prelude.{
  ℕ, zero, suc, ◌+◌, ◌≤◌, ◌<◌, ◌≡◌, ◌∙◌, refl, sym, ap, subst, Bool, true, false, ◌||◌, List, [],
  ◌∷◌, if◌then◌else◌, length, get_or, set, replicate, add32, arith, inl, inr, Bool-cases,
  length-set,
}
use memt.Input.{Input, Location, location, WordAlignments, ask, is_connection, is_none, get_word}
use memt.Input.Closure.{located}
use memt.Input.Closure.Visit.{split_located, apart}
use memt.Graph.{
  bit_size, bit, is_covered, cover_aligned, extend_bits, continued, bigrams, graph_extensions,
}
use memt.Graph.Bits.{IsPlace, bit_injective, is_covered-extend_bits}
use memt.Graph.Extensions.{graph_extensions-is_covered, located-append, nowhere}

-- How many bits are clear.
unfoldable pub count_clear : List Bool → ℕ
count_clear [] = 0
count_clear (b ∷ bits) = let rest = count_clear bits in if b then rest else suc rest

pub count_clear-replicate : (n : ℕ) → count_clear (replicate n false) ≡ n
unfolding count_clear
count_clear-replicate zero = refl
count_clear-replicate (suc n) = ap suc (count_clear-replicate n)

-- What is set stays set.
abbrev Keeps : List Bool → List Bool → Type 0
Keeps old new = (i : ℕ) → get_or old i false ≡ true → get_or new i false ≡ true

count_clear-le :
    (old new : List Bool)
    → length old ≡ length new
    → Keeps old new
    → count_clear new ≤ count_clear old
unfolding count_clear
count_clear-le [] [] h k = omega arith
count_clear-le [] (c ∷ new) h k = absurd (omega (arith, h))
count_clear-le (b ∷ old) [] h k = absurd (omega (arith, h))
count_clear-le (b ∷ old) (c ∷ new) h k =
    let rest = count_clear-le old new (omega (arith, h)) (λ i. k (suc i)) in
    let first = k 0 in ground (arith, rest, first)

count_clear-lt :
    (old new : List Bool) (i : ℕ)
    → length old ≡ length new
    → Keeps old new
    → i < length old
    → get_or old i false ≡ false
    → get_or new i false ≡ true
    → count_clear new < count_clear old
unfolding count_clear
count_clear-lt [] new i h k l p q = absurd (omega (arith, l))
count_clear-lt (b ∷ old) [] i h k l p q = absurd (omega (arith, h))
count_clear-lt (b ∷ old) (c ∷ new) zero h k l p q =
    let rest = count_clear-le old new (omega (arith, h)) (λ i. k (suc i)) in
    ground (arith, rest, p, q)
count_clear-lt (b ∷ old) (c ∷ new) (suc i) h k l p q =
    let rest =
      count_clear-lt old new i (omega (arith, h)) (λ i. k (suc i)) (omega (arith, l)) p q in
    let first = k 0 in ground (arith, rest, first)

set-Keeps : (bits : List Bool) (j : ℕ) → Keeps bits (set bits j true)
set-Keeps [] j i h = h
set-Keeps (b ∷ bits) zero zero h = refl
set-Keeps (b ∷ bits) zero (suc i) h = h
set-Keeps (b ∷ bits) (suc j) zero h = h
set-Keeps (b ∷ bits) (suc j) (suc i) h = set-Keeps bits j i h

module _ (text : Input) where
  length-cover_aligned :
      (e : ℕ) (al : WordAlignments) (bits : List Bool)
      → length (cover_aligned text e al bits) ≡ length bits
  unfolding cover_aligned
  length-cover_aligned e [] bits = refl
  length-cover_aligned e (info ∷ al) bits = elim (Bool-cases (is_connection info)) [
    | inl c ↦ rw c (
        length-cover_aligned (suc e) al (set bits (bit text e info.offset) true)
        ∙ length-set bits (bit text e info.offset) true)
    | inr n ↦ rw n (length-cover_aligned (suc e) al bits)
  ]

  cover_aligned-Keeps :
      (e : ℕ) (al : WordAlignments) (bits : List Bool) → Keeps bits (cover_aligned text e al bits)
  unfolding cover_aligned
  cover_aligned-Keeps e [] bits i h = h
  cover_aligned-Keeps e (info ∷ al) bits i h = elim (Bool-cases (is_connection info)) [
    | inl c ↦ rw c (
        cover_aligned-Keeps (suc e) al (set bits (bit text e info.offset) true) i
          (set-Keeps bits (bit text e info.offset) i h))
    | inr n ↦ rw n (cover_aligned-Keeps (suc e) al bits i h)
  ]

  pub length-extend_bits :
      (to : Location) (bits : List Bool) → length (extend_bits text to bits) ≡ length bits
  unfolding extend_bits
  length-extend_bits to bits =
      length-cover_aligned 0 (get_word text to.engine to.offset).alignments bits

-- The alignments of a text are to words of its sentences, and each word is aligned to itself.
pub record IsSelfAligned (text : Input) : Type 0 where
  pub inside :
      (e o k : ℕ)
      → is_connection (ask (get_word text e o).alignments k) ≡ true
      → IsPlace text k (ask (get_word text e o).alignments k).offset
  pub itself :
      (e o : ℕ)
      → IsPlace text e o
      → (is_connection (ask (get_word text e o).alignments e) ≡ true)
        × ((ask (get_word text e o).alignments e).offset ≡ o)

module _ (text : Input) (bits : List Bool) where
  abbrev AreWords : List Location → Type 0
  AreWords locations = (l : Location) → located l locations ≡ true → IsPlace text l.engine l.offset

  continued-AreWords :
      (e : ℕ) (al : WordAlignments)
      → ((k : ℕ) → is_connection (ask al k) ≡ true → IsPlace text (e + k) (ask al k).offset)
      → AreWords (continued text bits e al)
  unfolding continued
  continued-AreWords e [] inside l = λ h. absurd (nowhere l h)
  continued-AreWords e (c ∷ al) inside l =
      let later = continued-AreWords (suc e) al (λ k con.
        let same : e + suc k ≡ suc e + k = omega arith in
        subst (λ i. IsPlace text i (ask al k).offset) same (inside (suc k) con)) in
      elim (Bool-cases (is_none c || is_covered text bits e c.offset)) [
        | inl skipped ↦ rw skipped (λ h. later l h)
        | inr offered ↦ rw offered (λ h.
            elim (split_located l (location e c.offset) _ (apart _ l _ h)) [
              | inl here ↦
                  let same : e + 0 ≡ e = omega arith in
                  let place =
                    subst (λ i. IsPlace text i c.offset) same
                      (inside 0 (ground (arith, offered))) in
                  subst (λ (m : Location). IsPlace text m.engine m.offset) (sym here) place
              | inr more ↦ later l more
            ])
      ]

  bigrams-AreWords :
      (e : ℕ) (al : WordAlignments) → IsSelfAligned text → AreWords (bigrams text bits e al)
  unfolding bigrams
  bigrams-AreWords e [] aligned l h = absurd (nowhere l h)
  bigrams-AreWords e (p ∷ al) aligned l h =
      elim (Bool-cases (located l (bigrams text bits (suc e) al))) [
        | inl later ↦ bigrams-AreWords (suc e) al aligned l later
        | inr here ↦ first (is_none p) (sym (located-append l (here_words (is_none p)) _) ∙ h) here
      ]
    where
      here_words : Bool → List Location
      here_words none =
          if none then [] else continued text bits 0 (get_word text e (add32 p.offset 1)).alignments

      first :
          (none : Bool)
          → (located l (here_words none) || located l (bigrams text bits (suc e) al)) ≡ true
          → located l (bigrams text bits (suc e) al) ≡ false
          → IsPlace text l.engine l.offset
      first true k n = absurd (ground (arith, k, n, nowhere l))
      first false k n =
          continued-AreWords 0 (get_word text e (add32 p.offset 1)).alignments
            (λ i con.
              let same : i ≡ 0 + i = omega arith in
              subst
                (λ j. IsPlace text j (ask (get_word text e (add32 p.offset 1)).alignments i).offset)
                same (aligned.inside e (add32 p.offset 1) i con))
            l (ground (arith, k, n))

graph_extensions-IsPlace :
    (text : Input) (previous l : Location) (bits : List Bool)
    → IsSelfAligned text
    → located l (graph_extensions text previous bits) ≡ true
    → IsPlace text l.engine l.offset
unfolding graph_extensions
graph_extensions-IsPlace text previous l bits aligned offered =
    bigrams-AreWords text bits 0 (get_word text previous.engine previous.offset).alignments aligned
      l offered

extend_bits-Keeps :
    (text : Input) (l : Location) (bits : List Bool) → Keeps bits (extend_bits text l bits)
unfolding extend_bits
extend_bits-Keeps text l bits =
    cover_aligned-Keeps text 0 (get_word text l.engine l.offset).alignments bits

-- Extend by a word that GetExtensions offers leaves fewer bits clear, if there is a bit for each word,
-- the alignments are to words of the sentences, and each word is aligned to itself.
pub count_clear-extend_bits :
    (text : Input) (previous l : Location) (bits : List Bool)
    → IsSelfAligned text
    → length bits ≡ bit_size 0 text.engines
    → located l (graph_extensions text previous bits) ≡ true
    → count_clear (extend_bits text l bits) < count_clear bits
count_clear-extend_bits text previous l bits aligned sized offered =
    let place = graph_extensions-IsPlace text previous l bits aligned offered in
    let (con, same) = aligned.itself l.engine l.offset place in
    let (_, room) = bit_injective text l.engine l.offset l.engine l.offset place place in
    count_clear-lt bits (extend_bits text l bits) (bit text l.engine l.offset)
      (sym (length-extend_bits text l bits)) (extend_bits-Keeps text l bits)
      (omega (arith, sized, room)) (graph_extensions-is_covered text previous bits l offered)
      (is_covered-extend_bits text l bits l.engine l.offset sized (aligned.inside l.engine l.offset)
          place
        ∙ ground (arith, con, same))
