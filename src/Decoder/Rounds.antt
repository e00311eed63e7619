-- ===== src/Decoder/Rounds.antt =====
-- What one word more does to the three beams of the decoder: predicates on their hypotheses that the
-- operations keep are kept by the search.
pub mod Finish
pub mod Loop
use memt.Prelude.{
  ℕ, ◌+◌, ◌<◌, word_mod, ◌≡◌, ◌∙◌, refl, sym, ap, subst, Bool, true, false, List, [], ◌∷◌, arith,
  inl, inr, Bool-cases, if◌then◌else◌,
}
use memt.Input.{Input, Location, location, get_word}
use memt.Input.Closure.{located}
use memt.Input.Closure.Visit.{located-new}
use memt.Beam.{Beam, one_best_merge}
use memt.Beam.Sound.{IsAllocated}
use memt.Beam.Spare.{AreSpare, set-AreSpare, insert-AreSpare, merged_at-Good}
use memt.Beam.Keeps.{IsGood, Each, written-IsGood, insert-IsGood}
use memt.Decoder.Score.{Score, LogScore}
use memt.Decoder.History.{History, HistoryEntry, node, entry_of, with_entry}
use memt.Decoder.Hypothesis.{
  Setting, InternalHypothesis, EndingHypothesis, blank_history, blank_internal, blank_ending,
  internal_below, ending_below, equals_up_to_lm, ending_same, extend_all_but_scorer,
  root_hypothesis, merge_hypothesis, finish_merging, set_ending,
}
use memt.Decoder.Implementation.{
  Config, DecoderImpl, available_in, write_available, internal_may_make_it, insert_internal,
  ending_may_make_it, insert_ending, offer_ending, extend_to_end, extend_to_next,
  extend_by_location, extend_each, extend_hypothesis, extend_decreasing,
}
use memt.Decoder.Viable.{extend_all_but_scorer-refused}
use memt.Decoder.Laws.{IsFair, internal-Laws, ending-Laws}

module _ {ℓ m} {D : Type ℓ} {P : Type m} (env : Setting D P) where
  -- The beam of histories in a hypothesis, which is used again, has an array of its size.
  abbrev pub IsSpare : InternalHypothesis D P → Type 0
  IsSpare hyp = IsAllocated hyp.previous.storage

  abbrev pub InternalSpare : Beam (InternalHypothesis D P) → Type 0
  InternalSpare b = AreSpare (blank_internal env) IsSpare b.storage.owner

  -- A location is one of those that a hypothesis is extended by.
  abbrev pub IsOffered : InternalHypothesis D P → Location → Type 0
  IsOffered start l = located l (env.strategy.get_extensions start.history start.payload) ≡ true

module _ {ℓ m n} {D : Type ℓ} {P : Type m} (env : Setting D P) where
  abbrev pub InternalGood :
      (InternalHypothesis D P → Type n) → ℕ → Beam (InternalHypothesis D P) → Type (ℓ ⊔ m ⊔ n)
  InternalGood =
      IsGood (blank_internal env) (internal_below env) (equals_up_to_lm env) (merge_hypothesis env)
        env.internal_bottom

  abbrev pub EndingGood :
      (EndingHypothesis D → Type n) → ℕ → Beam (EndingHypothesis D) → Type (ℓ ⊔ n)
  EndingGood =
      IsGood (blank_ending env) (ending_below env) (ending_same env)
        (one_best_merge (ending_below env)) env.ending_bottom

  -- What holds of a hypothesis of so many words in the current beam and in the next one, and of an
  -- ending hypothesis, and is kept by what the decoder does with them.
  pub record IsKept (config : Config) (Start Next : ℕ → InternalHypothesis D P → Type n)
      (End : EndingHypothesis D → Type n) : Type (ℓ ⊔ m ⊔ n) where
    pub begins :
        (begin : ℕ) (hyp : InternalHypothesis D P)
        → IsSpare env hyp
        → Start 1 (root_hypothesis env begin config.end_beam_size hyp)
    pub extends :
        (k : ℕ) (start hyp : InternalHypothesis D P) (scratch : History D)
        → Start k start
        → IsSpare env hyp
        → IsOffered env start (location (entry_of scratch).engine (entry_of scratch).offset)
        → (extend_all_but_scorer env start config.end_beam_size scratch hyp).0 ≡ true
        → Next (k + 1) (extend_all_but_scorer env start config.end_beam_size scratch hyp).1
    pub short : (k : ℕ) (hyp : InternalHypothesis D P) → Start k hyp → k + 1 < word_mod
    pub joins :
        (k : ℕ) (a b : InternalHypothesis D P)
        → equals_up_to_lm env a b ≡ true
        → Next k a
        → Next k b
        → Next k (merge_hypothesis env a b).0
    pub spares : (k : ℕ) (hyp : InternalHypothesis D P) → Next k hyp → IsSpare env hyp
    pub starts_join :
        (k : ℕ) (a b : InternalHypothesis D P)
        → Start k a
        → Start k b
        → Start k (merge_hypothesis env a b).0
    pub finishes :
        (k : ℕ) (hyp : InternalHypothesis D P) → Next k hyp → Start k (finish_merging env hyp)
    pub ends :
        (k : ℕ) (start : InternalHypothesis D P) (scratch : History D) (hyp : EndingHypothesis D)
        → Start k start
        → End (set_ending env scratch start.history (k + 1) hyp)

located_later :
    (m l : Location) (rest : List Location) → located m rest ≡ true → located m (l ∷ rest) ≡ true
unfolding located
located_later m l rest h = ground arith

located_first : (l : Location) (rest : List Location) → located l (l ∷ rest) ≡ true
unfolding located
located_first l rest = located-new l l rest refl

either {ℓ n} :
    {A : Type ℓ} (Q : A → Type n) (c : Bool) {a b : A}
    → (c ≡ true → Q a)
    → (c ≡ false → Q b)
    → Q (if c then a else b)
either Q true p q = p refl
either Q false p q = q refl

module _ {ℓ m n} {D : Type ℓ} {P : Type m} (env : Setting D P) (fair : IsFair env) (config : Config)
    (Start Next : ℕ → InternalHypothesis D P → Type n) (End : EndingHypothesis D → Type n)
    (kept : IsKept env config Start Next End) (input : Input) where
  abbrev pub IsNext : ℕ → Beam (InternalHypothesis D P) → Type (ℓ ⊔ m ⊔ n)
  IsNext k b = InternalGood env (Next (k + 1)) config.internal_beam_size b × InternalSpare env b

  -- While hypotheses of k words are extended.
  pub record IsExtending (k : ℕ) (d : DecoderImpl D P) : Type (ℓ ⊔ m ⊔ n) where
    pub growing : IsNext k d.next
    pub ended : EndingGood env End config.end_beam_size d.ending
    pub counted : d.length ≡ k + 1
    pub standing : IsAllocated d.current.storage
    pub spare_current : InternalSpare env d.current

  end_joins :
      (a b : EndingHypothesis D)
      → ending_same env a b ≡ true
      → End a
      → End b
      → End (one_best_merge (ending_below env) a b).0
  unfolding one_best_merge
  end_joins a b e p q = elim (Bool-cases (ending_below env a b)) [ inl h ↦ rw h q | inr h ↦ rw h p ]

  write-IsNext :
      (k : ℕ) (hyp : InternalHypothesis D P) (b : Beam (InternalHypothesis D P))
      → IsSpare env hyp
      → IsNext k b
      → IsNext k (write_available hyp b)
  write-IsNext k hyp b spare (good, all) = (
    written-IsGood _ _ _ _ _ _ _ (internal-Laws env fair) hyp b good,
    set-AreSpare (blank_internal env) (IsSpare env) b.storage.owner b.storage.available hyp spare
        all,
  )

  insert-IsNext :
      (k : ℕ) (hyp : InternalHypothesis D P) (b : Beam (InternalHypothesis D P))
      → Next (k + 1) hyp
      → IsNext k b
      → IsNext k (insert_internal env hyp b)
  insert-IsNext k hyp b next (good, all) = (
    insert-IsGood _ _ _ _ _ _ _ (internal-Laws env fair) (kept.joins (k + 1)) hyp b next good,
    insert-AreSpare (blank_internal env) (IsSpare env) _ _ _ _ (internal-Laws env fair) hyp [] b
        good.merging
        (λ i e. kept.spares (k + 1) _ (
          merged_at-Good (blank_internal env) (IsSpare env) _ _ _ _ (internal-Laws env fair) hyp []
            b good.merging (Next (k + 1)) (kept.joins (k + 1)) next good.all i e))
        (kept.spares (k + 1) hyp next) all,
  )

  refused-IsSpare :
      (start hyp : InternalHypothesis D P) (scratch : History D)
      → IsSpare env hyp
      → (extend_all_but_scorer env start config.end_beam_size scratch hyp).0 ≡ false
      → IsSpare env (extend_all_but_scorer env start config.end_beam_size scratch hyp).1
  refused-IsSpare start hyp scratch spare e =
      rw (extend_all_but_scorer-refused env start hyp config.end_beam_size scratch e) spare

  offer_ending-IsExtending :
      (k : ℕ) (start : InternalHypothesis D P) (scratch : History D) (hyp : EndingHypothesis D)
      (d : DecoderImpl D P)
      → Start k start
      → IsExtending k d
      → IsExtending k (offer_ending env config input start scratch hyp d)
  unfolding offer_ending
  offer_ending-IsExtending k start scratch hyp d s v =
      either (λ d. IsExtending k d)
        (ending_may_make_it env d.ending (record hyp { history = scratch }))
        (λ _. record {
          growing = v.growing;
          ended =
              insert-IsGood _ _ _ _ _ End _ (ending-Laws env fair) end_joins
                (set_ending env scratch start.history d.length hyp) d.ending
                (subst (λ l. End (set_ending env scratch start.history l hyp)) (sym v.counted)
                  (kept.ends k start scratch hyp s))
                v.ended;
          counted = v.counted;
          standing = v.standing;
          spare_current = v.spare_current;
        })
        (λ _. record {
          growing = v.growing;
          ended = written-IsGood _ _ _ _ _ End _ (ending-Laws env fair) hyp d.ending v.ended;
          counted = v.counted;
          standing = v.standing;
          spare_current = v.spare_current;
        })

  extend_to_end-IsExtending :
      (k : ℕ) (start : InternalHypothesis D P) (scratch : History D) (d : DecoderImpl D P)
      → Start k start
      → IsExtending k d
      → IsExtending k (extend_to_end env config input start scratch d)
  unfolding extend_to_end
  extend_to_end-IsExtending k start scratch d s v = offer_ending-IsExtending k start _ _ d s v

  extend_to_next-IsExtending :
      (k : ℕ) (start : InternalHypothesis D P) (scratch : History D) (hyp : InternalHypothesis D P)
      (d : DecoderImpl D P)
      → Start k start
      → IsSpare env hyp
      → IsOffered env start (location (entry_of scratch).engine (entry_of scratch).offset)
      → IsExtending k d
      → IsExtending k (extend_to_next env config input start scratch hyp d)
  unfolding extend_to_next
  extend_to_next-IsExtending k start scratch hyp d s spare offered v =
      let extended = extend_all_but_scorer env start config.end_beam_size scratch hyp in
      either (λ d. IsExtending k d)
        (internal_may_make_it env d.next (record hyp { history = scratch }))
        (λ _. record {
          growing =
              either (λ b. IsNext k b) extended.0
                (λ viable.
                  insert-IsNext k extended.1 d.next
                    (kept.extends k start hyp scratch s spare offered viable) v.growing)
                (λ refused.
                  write-IsNext k extended.1 d.next (refused-IsSpare start hyp scratch spare refused)
                    v.growing);
          ended = v.ended;
          counted = v.counted;
          standing = v.standing;
          spare_current = v.spare_current;
        })
        (λ _. record {
          growing = write-IsNext k hyp d.next spare v.growing;
          ended = v.ended;
          counted = v.counted;
          standing = v.standing;
          spare_current = v.spare_current;
        })

  entry_of-with_entry : (e : HistoryEntry D) (h : History D) → entry_of (with_entry e h) ≡ e
  entry_of-with_entry e (node old previous hash) = refl

  extend_by_location-IsExtending :
      (k : ℕ) (start : InternalHypothesis D P) (l : Location) (d : DecoderImpl D P)
      → Start k start
      → IsOffered env start l
      → IsExtending k d
      → IsExtending k (extend_by_location env config input start l d)
  unfolding extend_by_location
  extend_by_location-IsExtending k start l d s offered v =
      let spare = v.growing.1 d.next.storage.available in
      either (λ d. IsExtending k d) (get_word input l.engine l.offset).text.is_end
        (λ _.
          extend_to_end-IsExtending k start _ (record d { next = write_available _ d.next }) s
            (record {
              growing = write-IsNext k _ d.next spare v.growing;
              ended = v.ended;
              counted = v.counted;
              standing = v.standing;
              spare_current = v.spare_current;
            }))
        (λ _.
          extend_to_next-IsExtending k start _ _ d s spare
            (subst (λ (e : HistoryEntry D). IsOffered env start (location e.engine e.offset))
              (sym (entry_of-with_entry _ _)) offered)
            v)

  extend_each-IsExtending :
      (k : ℕ) (start : InternalHypothesis D P) (locations : List Location) (d : DecoderImpl D P)
      → Start k start
      → ((l : Location) → located l locations ≡ true → IsOffered env start l)
      → IsExtending k d
      → IsExtending k (extend_each env config input start locations d)
  unfolding extend_each
  extend_each-IsExtending k start [] d s offered v = v
  extend_each-IsExtending k start (l ∷ rest) d s offered v =
      extend_each-IsExtending k start rest _ s
        (λ other h. offered other (located_later other l rest h))
        (extend_by_location-IsExtending k start l d s (offered l (located_first l rest)) v)

  pub extend_decreasing-IsExtending :
      (k : ℕ) (hyps : List (InternalHypothesis D P)) (d : DecoderImpl D P)
      → Each (Start k) hyps
      → IsExtending k d
      → IsExtending k (extend_decreasing env config input hyps d)
  unfolding extend_decreasing
  extend_decreasing-IsExtending k [] d s v = v
  extend_decreasing-IsExtending k (hyp ∷ higher) d (s, rest) v =
      extend_each-IsExtending k hyp (env.strategy.get_extensions hyp.history hyp.payload) _ s
        (λ l h. h) (extend_decreasing-IsExtending k higher d rest v)
