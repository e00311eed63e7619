-- ===== src/Phrase/Lock.antt =====
-- MEMT/Strategy/Phrase/Hypothesis.hh: a hypothesis that has started a phrase of an engine has to
-- finish it, before it may take words of another engine.
use mathlib.Core.Bool.{false≢true}
use memt.Prelude.{
  ℕ, suc, ◌+◌, ◌≤◌, ◌<◌, ◌≡◌, refl, Bool, true, false, not, ◌&&◌, Option, none, some, ltb, leb,
  ◌==◌, if◌then◌else◌, add32, word_mod, word_max, arith, inl, inr, Bool-cases,
}
use memt.Phrase.{PhraseWord, EndMap, last_within}
use memt.Phrase.EndMap.{Ascends, has_end, has_end-lo, last_within-some, last_within-none}
use memt.Horizon.Hypothesis.{Hypothesis, frontier_of, max_clear_of}

-- `engine` is UINT_MAX outside a phrase.
pub record Lock : Type 0 where
  pub engine : ℕ
  pub end : ℕ

-- InitializeRoot
abbrev pub unlocked : Lock
unlocked = record { engine = word_max; end = 0 }

abbrev pub in_phrase : Lock → Bool
in_phrase lock = not (lock.engine == word_max)

unfoldable pub lock_on : ℕ → Option ℕ → Lock
lock_on engine none = unlocked
lock_on engine (some end) = record { engine = engine; end = end }

-- Advance
unfoldable pub advance : PhraseWord → Hypothesis → ℕ → ℕ → Lock → Lock
unfolding lock_on
advance word new_coverage engine offset lock =
    let frontier = frontier_of new_coverage engine in
    if in_phrase lock && leb frontier lock.end
    then lock
    else if ltb (add32 offset 1) frontier
    then unlocked
    else lock_on engine (last_within (max_clear_of new_coverage engine) word.ends)

-- operator==
unfoldable pub eq_lock : Lock → Lock → Bool
eq_lock left right = left.engine == right.engine && left.end == right.end

-- What a hypothesis enters: the longest phrase up to `max_end`, or none if there is none.
abbrev pub Entered : EndMap → ℕ → ℕ → Lock → Type 0
Entered ends max_end engine lock =
    (in_phrase lock ≡ true
      → (lock.engine ≡ engine) × (has_end lock.end ends ≡ true) × (lock.end ≤ max_end))
    × ((e : ℕ) → has_end e ends ≡ true → e ≤ max_end → (in_phrase lock ≡ true) × (e ≤ lock.end))

module _ (ends : EndMap) (max_end engine lo : ℕ) (ascends : Ascends lo ends)
    (known : engine < word_max) where
  lock_on-Entered :
      (found : Option ℕ)
      → last_within max_end ends ≡ found
      → Entered ends max_end engine (lock_on engine found)
  unfolding lock_on
  lock_on-Entered none e = (
    λ locked. absurd (false≢true locked),
    λ f h k. absurd (omega (arith, last_within-none max_end lo ends f ascends e h)),
  )
  lock_on-Entered (some x) e =
      let (found, within, longest) = last_within-some max_end lo ends x ascends e in
      (λ locked. (refl, found, within), λ f h k. (ground arith, longest f h k))

module _ (word : PhraseWord) (new_coverage : Hypothesis) (engine offset : ℕ) (lock : Lock)
    (behind : Ascends (suc offset) word.ends) (known : engine < word_max)
    (small : offset + 1 < word_mod) where
  -- Advance over a word that leaves the frontier right behind it, of a hypothesis that is in no
  -- phrase or at the end of one: it is then in the longest phrase of the word, of those that end
  -- within MaxClear, or in no phrase if there is no such phrase. The phrases of the word end behind it,
  -- and the engine and the offset fit in 32 bits.
  pub advance-Entered :
      (in_phrase lock ≡ true → lock.end < frontier_of new_coverage engine)
      → frontier_of new_coverage engine ≡ offset + 1
      → Entered word.ends
          (max_clear_of new_coverage engine)
          engine
          (advance word new_coverage engine offset lock)
  unfolding advance
  advance-Entered ended next =
      let goes : (in_phrase lock && leb (frontier_of new_coverage engine) lock.end) ≡ false =
        ground (arith, ended) in
      let whole : ltb (add32 offset 1) (frontier_of new_coverage engine) ≡ false = ground arith in
      rw (goes, whole)
        (lock_on-Entered word.ends (max_clear_of new_coverage engine) engine (suc offset) behind
          known _ refl)

  entered :
      frontier_of new_coverage engine ≤ offset + 1
      → in_phrase (lock_on engine (last_within (max_clear_of new_coverage engine) word.ends)) ≡ true
      → ((lock_on engine (last_within (max_clear_of new_coverage engine) word.ends)).engine
          ≡ engine)
        × (frontier_of new_coverage engine
            ≤ (lock_on engine (last_within (max_clear_of new_coverage engine) word.ends)).end)
  entered next locked =
      let (same, found, within) =
        (lock_on-Entered word.ends (max_clear_of new_coverage engine) engine (suc offset) behind
            known _ refl).0
          locked in
      (same, omega (arith, has_end-lo _ (suc offset) word.ends behind found))

  -- The assertions of Advance: a hypothesis that is then in a phrase is in one of the engine that
  -- advanced, and the phrase ends on or behind the new frontier. The word is used and its phrases end
  -- behind it, and a phrase that the hypothesis was in before is one of the same engine.
  pub advance-frontier-le :
      (in_phrase lock ≡ true → lock.engine ≡ engine)
      → in_phrase (advance word new_coverage engine offset lock) ≡ true
      → ((advance word new_coverage engine offset lock).engine ≡ engine)
        × (frontier_of new_coverage engine ≤ (advance word new_coverage engine offset lock).end)
  unfolding advance
  advance-frontier-le same =
      elim (Bool-cases (in_phrase lock && leb (frontier_of new_coverage engine) lock.end)) [
        | inl stays ↦ rw stays (λ locked. ground (arith, same))
        | inr goes ↦
            rw goes (elim (Bool-cases (ltb (add32 offset 1) (frontier_of new_coverage engine))) [
              | inl broken ↦ rw broken (λ locked. absurd (false≢true locked))
              | inr whole ↦ rw whole (entered (ground arith))
            ])
      ]
