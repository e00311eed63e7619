-- ===== src/Graph/Extensions.antt =====
-- GetExtensions offers only words that are not covered.
use mathlib.Core.Bool.{false≢true}
use memt.Prelude.{
  ℕ, suc, ◌≡◌, ◌∙◌, refl, sym, subst, Bool, true, false, ◌||◌, List, [], ◌∷◌, ◌++◌, add32,
  if◌then◌else◌, arith, inl, inr, Bool-cases,
}
use memt.Input.{Input, Location, location, WordAlignments, is_none, get_word}
use memt.Input.Closure.{located}
use memt.Input.Closure.Visit.{split_located, apart}
use memt.Graph.{is_covered, continued, bigrams, graph_extensions}

pub located-append :
    (l : Location) (xs ys : List Location) → located l (xs ++ ys) ≡ located l xs || located l ys
unfolding located
located-append l [] ys = refl
located-append l (x ∷ xs) ys = ground (arith, located-append l xs ys)

pub nowhere : (l : Location) → located l [] ≡ true → ⊥
unfolding located
nowhere l h = false≢true h

module _ (text : Input) (bits : List Bool) where
  abbrev IsFree : List Location → Type 0
  IsFree locations =
      (l : Location) → located l locations ≡ true → is_covered text bits l.engine l.offset ≡ false

  continued-IsFree : (e : ℕ) (al : WordAlignments) → IsFree (continued text bits e al)
  unfolding continued
  continued-IsFree e [] = λ l h. absurd (nowhere l h)
  continued-IsFree e (c ∷ al) = elim (Bool-cases (is_none c || is_covered text bits e c.offset)) [
    | inl skipped ↦ rw skipped (continued-IsFree (suc e) al)
    | inr offered ↦ rw offered (λ l h.
        elim (split_located l (location e c.offset) _ (apart _ l _ h)) [
          | inl same ↦
              subst (λ m. is_covered text bits m.engine m.offset ≡ false) (sym same) (ground arith)
          | inr later ↦ continued-IsFree (suc e) al l later
        ])
  ]

  bigrams-IsFree : (e : ℕ) (al : WordAlignments) → IsFree (bigrams text bits e al)
  unfolding bigrams
  bigrams-IsFree e [] l h = absurd (nowhere l h)
  bigrams-IsFree e (p ∷ al) l h = elim (Bool-cases (located l (bigrams text bits (suc e) al))) [
    | inl later ↦ bigrams-IsFree (suc e) al l later
    | inr here ↦ first (is_none p) (ground (arith, split h))
  ]
    where
      here_words : Bool → List Location
      here_words none =
          if none then [] else continued text bits 0 (get_word text e (add32 p.offset 1)).alignments

      split :
          located l (here_words (is_none p) ++ bigrams text bits (suc e) al) ≡ true
          → (located l (here_words (is_none p)) || located l (bigrams text bits (suc e) al)) ≡ true
      split k = sym (located-append l (here_words (is_none p)) (bigrams text bits (suc e) al)) ∙ k

      first :
          (none : Bool)
          → located l (here_words none) ≡ true
          → is_covered text bits l.engine l.offset ≡ false
      first true k = absurd (nowhere l k)
      first false k = continued-IsFree 0 (get_word text e (add32 p.offset 1)).alignments l k

-- Each word that GetExtensions offers is one that the hypothesis has not covered.
pub graph_extensions-is_covered :
    (text : Input) (previous : Location) (bits : List Bool) (l : Location)
    → located l (graph_extensions text previous bits) ≡ true
    → is_covered text bits l.engine l.offset ≡ false
unfolding graph_extensions
graph_extensions-is_covered text previous bits =
    bigrams-IsFree text bits 0 (get_word text previous.engine previous.offset).alignments
