-- ===== src/Phrase/Punctuation/Covered.antt =====
-- DetectPunctuation closes each phrase that it opens, and each punctuation mark is blocked off
-- together with the word before it.
use mathlib.Core.Bool.{false≢true}
use memt.Prelude.{
  ℕ, zero, suc, ◌+◌, ◌-◌, ◌≤◌, ◌<◌, ◌≡◌, refl, ap, subst, sym, ◌∙◌, Bool, true, false, not, ◌&&◌,
  List, [], ◌∷◌, ltb, if◌then◌else◌, length, get_or, any_bit, arith, inl, inr, Bool-cases,
}
use memt.Input.{Word, Engine, blank_word}
use memt.Phrase.{System, phrase_at, phrase_punctuation}
use memt.Phrase.Blocks.{range}
use memt.Phrase.Blocks.Least.{Includes}
use memt.Phrase.Detect.{
  detect, reset_system, punctuation_loop, detect_punctuation, aligned_loop, aligned_from,
  detect_aligned, from_second, reset_words,
}
use memt.Phrase.Punctuation.{
  punctuation_loop_cons, close_phrase, HasPhrase, IsWellFormed, add_phrase-keeps, add_phrase-adds,
  close_phrase-IsWellFormed, close_phrase-keeps, next_room, end_run-IsWellFormed, end_run-keeps,
  reset_words-IsWellFormed, reset_system-IsBlock, detect_punctuation-IsWellFormed,
  detect-IsWellFormed,
}

-- Is the last word punctuation? `opened` answers for an empty list.
unfoldable pub ends_in_punctuation : List Word → Bool → Bool
ends_in_punctuation [] opened = opened
ends_in_punctuation (w ∷ ws) opened = ends_in_punctuation ws w.text.is_punctuation

-- The loop once more, with the test of the word as a variable.
loop_at :
    (w : Word) (ws : List Word) (i start : ℕ) (opened p : Bool) (s : System)
    → w.text.is_punctuation ≡ p
    → punctuation_loop (w ∷ ws) i start opened s
      ≡ punctuation_loop ws
          (suc i)
          (if p && not opened then i - 1 else start)
          p
          (close_phrase w i start opened s)
loop_at w ws i start opened p s e =
    punctuation_loop_cons w ws i start opened s
    ∙ ap
        (λ q.
          punctuation_loop ws (suc i) (if q && not opened then i - 1 else start) q
            (close_phrase w i start opened s))
        e

-- A phrase that starts before word `k` and does not end before it.
abbrev pub Covers : ℕ → System → Type 0
Covers k s = (o : ℕ) × (e : ℕ) × (o < k) × (k ≤ e) × HasPhrase s o e 5

module _ (n : ℕ) where
  punctuation_loop-keeps :
      (ws : List Word) (i start o e : ℕ) (opened : Bool) (s : System)
      → i + length ws ≤ n
      → 0 < i
      → (opened ≡ true → start + 2 ≤ i)
      → IsWellFormed n s
      → HasPhrase s o e 5
      → HasPhrase (punctuation_loop ws i start opened s).0 o e 5
  unfolding punctuation_loop
  punctuation_loop-keeps [] i start o e opened s h p q v k = k
  punctuation_loop-keeps (w ∷ ws) i start o e opened s h p q v k =
      subst (λ (r : System × Bool). HasPhrase r.0 o e 5)
        (sym (punctuation_loop_cons w ws i start opened s))
        (punctuation_loop-keeps ws (suc i) _ o e _ _ (omega arith) (omega arith)
          (next_room w n i start opened s (omega arith) q v p)
          (close_phrase-IsWellFormed w n i start opened s (omega arith) q v)
          (close_phrase-keeps w n i start opened s (omega arith) q v o e 5 k))

  module _ (w : Word) (i start : ℕ) (s : System) (h : i ≤ n) (r : start + 2 ≤ i)
      (v : IsWellFormed n s) where
    closed_here :
        w.text.is_punctuation ≡ false → HasPhrase (close_phrase w i start true s) start (i - 1) 5
    unfolding close_phrase
    closed_here e =
        rw e (
          add_phrase-adds start (i - 1) 1 s (rw v.sized (omega arith)) v.behind (omega arith) 5
            refl)

  -- A phrase that is open at word `i` is closed at `i` or later.
  abbrev Closes : List Word → ℕ → ℕ → Bool → System → Type 0
  Closes ws i start opened s =
      (e : ℕ) × (i ≤ e + 1) × HasPhrase (punctuation_loop ws i start opened s).0 start e 5

  module _ (w : Word) (ws : List Word) (i start : ℕ) (s : System) (h : i + suc (length ws) ≤ n)
      (r : start + 2 ≤ i) (v : IsWellFormed n s) where
    after : System
    after = close_phrase w i start true s

    after-IsWellFormed : IsWellFormed n after
    unfolding after
    after-IsWellFormed = close_phrase-IsWellFormed w n i start true s (omega arith) (λ _. r) v

    Closes-step :
        (ends_in_punctuation ws true ≡ false → Closes ws (suc i) start true after)
        → ends_in_punctuation ws w.text.is_punctuation ≡ false
        → Closes (w ∷ ws) i start true s
    unfolding after
    Closes-step later f = elim (Bool-cases w.text.is_punctuation) [
      | inl more ↦
          let (e, le, has) = later (ap (ends_in_punctuation ws) (sym more) ∙ f) in
          (e, omega arith, rw (loop_at w ws i start true true s more) has)
      | inr closes ↦ (
        i - 1,
        omega arith,
        rw (loop_at w ws i start true false s closes) (
            punctuation_loop-keeps ws (suc i) start start (i - 1) false _ (omega arith)
              (omega arith) (λ b. absurd (false≢true b)) after-IsWellFormed
              (closed_here w i start s (omega arith) r v closes)),
      )
    ]

  -- An open phrase is closed, if the sentence does not end in punctuation.
  open-Closes :
      (ws : List Word) (i start : ℕ) (s : System)
      → i + length ws ≤ n
      → start + 2 ≤ i
      → IsWellFormed n s
      → ends_in_punctuation ws true ≡ false
      → Closes ws i start true s
  unfolding ends_in_punctuation
  open-Closes [] i start s h r v f = absurd (false≢true (sym f))
  open-Closes (w ∷ ws) i start s h r v f =
      Closes-step w ws i start s h r v
        (open-Closes ws (suc i) start (after w ws i start s h r v) (omega arith) (omega arith)
          (after-IsWellFormed w ws i start s h r v))
        f

  -- A mark that is read is in the phrase that is open behind it.
  opens :
      (w : Word) (ws : List Word) (i start : ℕ) (opened : Bool) (s : System)
      → i + suc (length ws) ≤ n
      → 0 < i
      → (opened ≡ true → start + 2 ≤ i)
      → IsWellFormed n s
      → ends_in_punctuation ws w.text.is_punctuation ≡ false
      → w.text.is_punctuation ≡ true
      → Covers i (punctuation_loop (w ∷ ws) i start opened s).0
  opens w ws i start opened s h p q v f k =
      let start' = if not opened then i - 1 else start in
      let before : start' + 2 ≤ suc i = ground (arith, q) in
      let (e, le, has) =
        open-Closes ws (suc i) start' (close_phrase w i start opened s) (omega arith) before
          (close_phrase-IsWellFormed w n i start opened s (omega arith) q v)
          (ap (ends_in_punctuation ws) (sym k) ∙ f) in
      (start', e, omega arith, omega arith, rw (loop_at w ws i start opened true s k) has)

  covered :
      (ws : List Word) (i start m : ℕ) (opened : Bool) (s : System)
      → i + length ws ≤ n
      → 0 < i
      → (opened ≡ true → start + 2 ≤ i)
      → IsWellFormed n s
      → ends_in_punctuation ws opened ≡ false
      → (get_or ws m blank_word).text.is_punctuation ≡ true
      → Covers (i + m) (punctuation_loop ws i start opened s).0
  unfolding punctuation_loop ends_in_punctuation
  covered [] i start m opened s h p q v f k = absurd (false≢true k)
  covered (w ∷ ws) i start zero opened s h p q v f k =
      let e : i + 0 ≡ i = omega arith in rw e (opens w ws i start opened s h p q v f k)
  covered (w ∷ ws) i start (suc m) opened s h p q v f k =
      let e : i + suc m ≡ suc i + m = omega arith in
      rw e (
        subst (λ (r : System × Bool). Covers (suc i + m) r.0)
          (sym (punctuation_loop_cons w ws i start opened s))
          (covered ws (suc i) _ m _ _ (omega arith) (omega arith)
            (next_room w n i start opened s (omega arith) q v p)
            (close_phrase-IsWellFormed w n i start opened s (omega arith) q v) f k))

aligned_loop-keeps :
    (ws : List Word) (n word start o e : ℕ) (parallel : List (ℕ × ℕ)) (s : System)
    → word + length ws ≤ n
    → start < word
    → IsWellFormed n s
    → HasPhrase s o e 5
    → HasPhrase (aligned_loop ws word start parallel s) o e 5
unfolding aligned_loop
aligned_loop-keeps [] n word start o e parallel s h k v p =
    elim (Bool-cases (ltb (start + 1) word)) [
      | inl long ↦ rw long (
          add_phrase-keeps start (word - 1) 2 s (rw v.sized (omega arith)) v.behind (ground arith) o
            e 5 p)
      | inr short ↦ rw short p
    ]
aligned_loop-keeps (w ∷ ws) n word start o e parallel s h k v p =
    aligned_loop-keeps ws n (suc word) _ o e _ _ (omega arith) (ground arith)
      (end_run-IsWellFormed _ n word start s k (omega arith) v)
      (end_run-keeps _ n word start s k (omega arith) v o e 5 p)

pub detect_aligned-keeps :
    (engine : Engine) (s : System) (o e : ℕ)
    → IsWellFormed (length engine.words) s
    → HasPhrase s o e 5
    → HasPhrase (detect_aligned engine s) o e 5
unfolding detect_aligned
detect_aligned-keeps engine s o e v p = from engine.words v
  where
    from : (ws : List Word) → IsWellFormed (length ws) s → HasPhrase (aligned_from ws s) o e 5
    from [] v = p
    from (w ∷ []) v = p
    from (w ∷ first ∷ ws) v =
        aligned_loop-keeps ws (suc (suc (length ws))) 2 1 o e _ s (omega arith) (omega arith) v p

detect_punctuation-Covers :
    (engine : Engine) (k : ℕ)
    → 0 < k
    → ends_in_punctuation (from_second engine.words) false ≡ false
    → (get_or engine.words k blank_word).text.is_punctuation ≡ true
    → Covers k (detect_punctuation engine (reset_words 0 engine.words)).0
unfolding detect_punctuation
detect_punctuation-Covers engine k h f p = from engine.words k h f p
  where
    from :
        (ws : List Word) (k : ℕ)
        → 0 < k
        → ends_in_punctuation (from_second ws) false ≡ false
        → (get_or ws k blank_word).text.is_punctuation ≡ true
        → Covers k (punctuation_loop (from_second ws) 1 0 false (reset_words 0 ws)).0
    from [] k h f p = absurd (false≢true p)
    from (w ∷ ws) zero h f p = absurd (omega arith)
    from (w ∷ ws) (suc k) h f p =
        let e : suc k ≡ 1 + k = omega arith in
        rw e (
          covered (suc (length ws)) ws 1 0 k false (reset_words 0 (w ∷ ws)) (omega arith)
            (omega arith) (λ b. absurd (false≢true b)) (reset_words-IsWellFormed (w ∷ ws)) f p)

detect-Covers :
    (types : ℕ) (engine : Engine) (k : ℕ)
    → any_bit types phrase_punctuation ≡ true
    → 0 < k
    → ends_in_punctuation (from_second engine.words) false ≡ false
    → (get_or engine.words k blank_word).text.is_punctuation ≡ true
    → Covers k (detect types engine)
unfolding detect
detect-Covers types engine k t h f p =
    let (o, e, before, after, has) = detect_punctuation-Covers engine k h f p in
    elim (Bool-cases (any_bit types 2)) [
      | inl a ↦ (
        o,
        e,
        before,
        after,
        rw (t, a)
            (detect_aligned-keeps engine _ o e
              (detect_punctuation-IsWellFormed engine _ (reset_words-IsWellFormed engine.words))
              has),
      )
      | inr a ↦ (o, e, before, after, rw (t, a) has)
    ]

-- If punctuation phrases are asked for and the sentence does not end in punctuation, every mark
-- but a first word is blocked off with the word before it: the block of either has both.
pub reset_system-blocks_punctuation :
    (types : ℕ) (engine : Engine) (k : ℕ)
    → any_bit types phrase_punctuation ≡ true
    → ends_in_punctuation (from_second engine.words) false ≡ false
    → suc k < length engine.words
    → (get_or engine.words (suc k) blank_word).text.is_punctuation ≡ true
    → Includes (phrase_at (reset_system types engine) k).block (range k (suc k))
      × Includes (phrase_at (reset_system types engine) (suc k)).block (range k (suc k))
reset_system-blocks_punctuation types engine k t f h p =
    let (o, e, before, after, has) = detect-Covers types engine (suc k) t (omega arith) f p in
    let v = detect-IsWellFormed types engine in
    let b = reset_system-IsBlock types engine k (omega arith) in
    let b' = reset_system-IsBlock types engine (suc k) h in
    let inside : o < length (detect types engine) = omega (arith, v.sized) in
    (
      omega (arith, b.covers o e inside has (omega arith) (omega arith)),
      omega (arith, b'.covers o e inside has (omega arith) (omega arith)),
    )
