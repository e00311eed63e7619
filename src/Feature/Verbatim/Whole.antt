-- ===== src/Feature/Verbatim/Whole.antt =====
-- MEMT/Feature/Verbatim/Sentence.cc: the scores after Begin and an Extend for each word.
use memt.Prelude.{
  ℕ, zero, suc, ◌+◌, ◌^◌, ◌≤◌, ◌<◌, ◌≡◌, ◌∙◌, refl, sym, ap, ltb, Bool, List, [], ◌∷◌,
  if◌then◌else◌, get_or, length, map, replicate, arith, length-map, length-replicate,
}
use memt.Input.{Input, AlignmentInfo, WordAlignments, ask, location, get_word}
use memt.Decoder.Score.{Doubles, LogScore}
use memt.Decoder.History.{History, entry_of}
use memt.Feature.Verbatim.{
  Config, feature_count, begin_state, begin_scores, run_length, run_lengths, add_one, extend,
}
use memt.Feature.Verbatim.Counts.{again, count_above}
use memt.Feature.Verbatim.Matches.{matches, run_after, ltb-run_after}
use memt.Feature.Verbatim.Runs.{
  Feature, of_engine, of_any, position, IsFeature, gain, get_or-extend, length-run_lengths,
}

get_or-replicate {ℓ} : {A : Type ℓ} (n i : ℕ) (a : A) → get_or (replicate n a) i a ≡ a
get_or-replicate zero i a = refl
get_or-replicate (suc n) zero a = refl
get_or-replicate (suc n) (suc i) a = get_or-replicate n i a

get_or-begin : (n e : ℕ) → e < n → get_or {A = ℕ} (replicate n 1) e 0 ≡ suc zero
get_or-begin zero e h = absurd (omega (arith, h))
get_or-begin (suc n) zero h = refl
get_or-begin (suc n) (suc e) h = get_or-begin n e (omega (arith, h))

again-add {ℓ} :
    {A : Type ℓ} (f : A → A) (n m : ℕ) (a : A) → again f n (again f m a) ≡ again f (m + n) a
unfolding again
again-add f n zero a = let e : n ≡ 0 + n = omega arith in ap (λ k. again f k a) e
again-add f n (suc m) a =
    let e : suc (m + n) ≡ suc m + n = omega arith in again-add f n m (f a) ∙ ap (λ k. again f k a) e

get_or-run_lengths :
    (n mask : ℕ) (previous current : WordAlignments) (from : List ℕ) (first e : ℕ)
    → e < n
    → get_or (run_lengths n mask previous current from first) e 0
      ≡ run_length mask
          (ask previous (first + e))
          (ask current (first + e))
          (get_or from (first + e) 0)
unfolding run_lengths
get_or-run_lengths zero mask previous current from first e h = absurd (omega (arith, h))
get_or-run_lengths (suc n) mask previous current from first zero h =
    ap (λ k. run_length mask (ask previous k) (ask current k) (get_or from k 0)) (omega arith)
get_or-run_lengths (suc n) mask previous current from first (suc e) h =
    get_or-run_lengths n mask previous current from (first + 1) e (omega (arith, h))
    ∙ ap (λ k. run_length mask (ask previous k) (ask current k) (get_or from k 0)) (omega arith)

zero_add : (n : ℕ) → 0 + n ≡ n
zero_add n = omega arith

-- For how many engines from the given one on the test holds.
unfoldable pub count_engines : ℕ → ℕ → (ℕ → Bool) → ℕ
count_engines zero e test = 0
count_engines (suc rounds) e test =
    let rest = count_engines rounds (e + 1) test in if test e then suc rest else rest

count_above_engines :
    (n : ℕ) (runs : List ℕ) (first : ℕ) (test : ℕ → Bool)
    → ((e : ℕ) → e < length runs → ltb n (get_or runs e 0) ≡ test (first + e))
    → count_above n runs ≡ count_engines (length runs) first test
unfolding count_above count_engines
count_above_engines n [] first test h = refl
count_above_engines n (run ∷ runs) first test h =
    ap (λ (b : Bool). if b then suc (count_above n runs) else count_above n runs)
      (h 0 (omega arith) ∙ ap test (omega arith))
    ∙ ap (λ k. if test first then suc k else k)
        (count_above_engines n runs (first + 1) test
          (λ e k. h (suc e) (omega (arith, k)) ∙ ap test (omega arith)))

module _ {ℓ} {D : Type ℓ} (input : Input) where
  -- The alignments to one engine of the words of a path, the last one first.
  abbrev pub seen : ℕ → List (History D) → List AlignmentInfo
  seen e path =
      map
        (λ (h : History D).
          ask (get_word input (entry_of h).engine (entry_of h).offset).alignments e)
        path

  -- How many n-grams of a feature's length the last word ends.
  unfoldable pub ends : Config → List (History D) → Feature → ℕ
  unfolding count_engines
  ends c path (of_engine e n) = if matches c.mask n (seen e path) then 1 else 0
  ends c path (of_any n) = count_engines c.num_systems 0 (λ e. matches c.mask n (seen e path))

  -- The same of all words but the beginning of the sentence.
  unfoldable pub hits : Config → List (History D) → Feature → ℕ
  unfolding ends
  hits c [] f = 0
  hits c (h ∷ []) f = 0
  hits c (a ∷ b ∷ path) f = hits c (b ∷ path) f + ends c (a ∷ b ∷ path) f

module _ {ℓ} {D : Type ℓ} (double : Doubles D) (zero_log one : D) (c : Config) (input : Input) where
  -- Begin, and an Extend for each word after the first.
  unfoldable pub score_path : List (History D) → List ℕ × List (LogScore D)
  unfolding extend
  score_path [] = (begin_state c, begin_scores zero_log c)
  score_path (h ∷ []) = (begin_state c, begin_scores zero_log c)
  score_path (a ∷ b ∷ path) =
      let from = score_path (b ∷ path) in
      extend double one c input b (location (entry_of a).engine (entry_of a).offset) from.0 from.1

  abbrev word_of : History D → WordAlignments
  word_of h = (get_word input (entry_of h).engine (entry_of h).offset).alignments

  length-score_path : (path : List (History D)) → length (score_path path).0 ≡ c.num_systems
  unfolding score_path extend
  length-score_path [] = length-replicate c.num_systems 1
  length-score_path (h ∷ []) = length-replicate c.num_systems 1
  length-score_path (a ∷ b ∷ path) = length-run_lengths c.num_systems c.mask _ _ _ 0

  get_or-score_path :
      (h : History D) (path : List (History D)) (e : ℕ)
      → e < c.num_systems
      → get_or (score_path (h ∷ path)).0 e 0 ≡ run_after c.mask (seen input e (h ∷ path))
  unfolding score_path extend run_after
  get_or-score_path h [] e k = get_or-begin c.num_systems e k
  get_or-score_path a (b ∷ path) e k =
      get_or-run_lengths c.num_systems c.mask _ _ (score_path (b ∷ path)).0 0 e k
      ∙ ap
          (λ i.
            run_length c.mask (ask (word_of b) i) (ask (word_of a) i)
              (get_or (score_path (b ∷ path)).0 i 0))
          (zero_add e)
      ∙ ap (run_length c.mask (ask (word_of b) e) (ask (word_of a) e))
          (get_or-score_path b path e k)

  longer :
      (a b : History D) (path : List (History D)) (n e : ℕ)
      → suc (suc (length path)) < 2 ^ 64
      → e < c.num_systems
      → ltb n (get_or (score_path (a ∷ b ∷ path)).0 e 0)
        ≡ matches c.mask n (seen input e (a ∷ b ∷ path))
  longer a b path n e small k =
      ap (ltb n) (get_or-score_path a (b ∷ path) e k)
      ∙ ltb-run_after c.mask n (ask (word_of a) e) (ask (word_of b) e) (seen input e path)
          (omega (arith, small, length-map (λ (h : History D). ask (word_of h) e) path))

  gain-score_path :
      (a b : History D) (path : List (History D)) (f : Feature)
      → suc (suc (length path)) < 2 ^ 64
      → IsFeature c f
      → gain (score_path (a ∷ b ∷ path)).0 f ≡ ends input c (a ∷ b ∷ path) f
  unfolding gain ends IsFeature
  gain-score_path a b path (of_engine e n) small h =
      ap (λ (t : Bool). if t then 1 else 0) (longer a b path n e small h.0)
  gain-score_path a b path (of_any n) small h =
      count_above_engines n (score_path (a ∷ b ∷ path)).0 0
        (λ e. matches c.mask n (seen input e (a ∷ b ∷ path)))
        (λ e k.
          longer a b path n e small (omega (arith, k, length-score_path (a ∷ b ∷ path)))
          ∙ ap (λ i. matches c.mask n (seen input i (a ∷ b ∷ path))) (sym (zero_add e)))
      ∙ ap (λ rounds. count_engines rounds 0 (λ e. matches c.mask n (seen input e (a ∷ b ∷ path))))
          (length-score_path (a ∷ b ∷ path))

  -- What holds of the scores after a path.
  abbrev pub Counted : List (History D) → Feature → Type ℓ
  Counted path f =
      (length (score_path path).1 ≡ feature_count c)
      × (get_or (score_path path).1 (position c f) (record { log_value = zero_log })
          ≡ again (add_one double one c) (hits input c path f) (record { log_value = zero_log }))

  counted_begin :
      (f : Feature)
      → (length (begin_scores zero_log c) ≡ feature_count c)
        × (get_or (begin_scores zero_log c) (position c f) (record { log_value = zero_log })
            ≡ again (add_one double one c) 0 (record { log_value = zero_log }))
  unfolding again
  counted_begin f = (length-replicate (feature_count c) _, get_or-replicate (feature_count c) _ _)

  -- After Begin and an Extend for each word, fewer than 2 ^ 64, each feature's score is that of
  -- Begin with one added as often as an n-gram of the feature's length that ends at a word taken
  -- is found verbatim in the engine, or for a feature of any engine as often as in all engines
  -- together: its words are aligned to consecutive words of the engine, by alignments in the mask.
  pub get_or-score_path-hits :
      (path : List (History D)) (f : Feature)
      → c.individual ≤ c.collective
      → suc (length path) < 2 ^ 64
      → IsFeature c f
      → Counted path f
  unfolding score_path hits
  get_or-score_path-hits [] f wide small h = counted_begin f
  get_or-score_path-hits (a ∷ []) f wide small h = counted_begin f
  get_or-score_path-hits (a ∷ b ∷ path) f wide small h =
      let from = score_path (b ∷ path) in
      let word = location (entry_of a).engine (entry_of a).offset in
      let add = add_one double one c in
      let none_yet : LogScore D = record { log_value = zero_log } in
      let old = get_or-score_path-hits (b ∷ path) f wide (omega (arith, small)) h in
      let new = get_or-extend double one c none_yet wide input b word from.0 from.1 f old.0 h in
      let last = ends input c (a ∷ b ∷ path) f in
      (
        new.0,
        new.1
            ∙ ap (λ g. again add g (get_or from.1 (position c f) none_yet))
                (gain-score_path a b path f (omega (arith, small)) h)
            ∙ ap (again add last) old.1
            ∙ again-add add last (hits input c (b ∷ path) f) none_yet,
      )
