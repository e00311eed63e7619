-- ===== src/Decoder/Complete.antt =====
-- MEMT/Decoder/EndBeam.cc and MEMT/Decoder/Completed.hh: the best sentences of the ending hypotheses.
-- A path that is followed to the beginning of the sentence leaves the second choices on its way in a
-- queue. A pointer to a BreadCrumb is its address with what it points to; an iterator into the packed
-- histories is what is left of them. `top_of` chooses one of the greatest entries of a queue.
pub mod Loop
pub mod Ends
use memt.Prelude.{
  ℕ, zero, suc, ◌+◌, ◌==◌, ltb, Bool, true, false, not, Option, none, some, List, [], ◌∷◌, ◌++◌,
  ◌&&◌, if◌then◌else◌, get_or, map, length, sub32, queued,
}
use memt.Input.{Location, location}
use memt.Beam.{Beam, value, slots}
use memt.Decoder.Score.{
  Doubles, Score, LogScore, unset_score, normalize_by_length, divide_by, multiply_by, is_below,
}
use memt.Decoder.History.{
  HistoryEntry, History, Histories, no_more, before, entry_of, previous_of, first_of, new_history,
}
use memt.Decoder.Hypothesis.{EndingHypothesis}

pub record CompletedHypothesis {ℓ} (D : Type ℓ) : Type ℓ where
  pub words : List Location
  pub score : Score D
  pub end_features : List (LogScore D)

-- BreadCrumb: the path from its node to the end of sentence.
pub record BreadCrumb {ℓ} (D : Type ℓ) : Type ℓ where
  pub address : ℕ
  pub nodes : List (History D)

pub record PartialHistory {ℓ} (D : Type ℓ) : Type ℓ where
  pub packed : Histories D
  pub path : BreadCrumb D
  pub node_length : ℕ
  pub path_length : ℕ
  pub multiplier : Score D
  pub score : Score D
  pub end_features : List (LogScore D)

-- The queue, the addresses in the set of sentences, the finished hypotheses, and the next address.
pub record Completion {ℓ} (D : Type ℓ) : Type ℓ where
  pub delayed : List (PartialHistory D)
  pub sentences : List ℕ
  pub finished : List (CompletedHypothesis D)
  pub next_address : ℕ

unfoldable pub count_histories {ℓ} : {D : Type ℓ} → Histories D → ℕ
count_histories no_more = 0
count_histories (before h rest) = suc (count_histories rest)

abbrev pub rest_of {ℓ} : {D : Type ℓ} → Histories D → Histories D
rest_of no_more = no_more
rest_of (before h rest) = rest

unfoldable pub remove_at {ℓ} : {A : Type ℓ} → ℕ → List A → List A
remove_at i [] = []
remove_at zero (a ∷ rest) = rest
remove_at (suc i) (a ∷ rest) = a ∷ remove_at i rest

module _ {ℓ} {D : Type ℓ} (double : Doubles D) (combine : ℕ → ℕ → ℕ) (normalize : Bool) where
  abbrev pub blank_node : History D
  blank_node = new_history double combine

  -- The score of the history that an iterator is at.
  abbrev pub score_at : Histories D → Score D
  score_at packed = elim (first_of packed) [
    | none ↦ unset_score double
    | some h ↦ (entry_of h).score
  ]

  abbrev pub normalized : ℕ → Score D → Score D
  normalized length s = if normalize then normalize_by_length double length s else s

  -- The first constructor of PartialHistory.
  unfoldable pub of_ending : ℕ → EndingHypothesis D → PartialHistory D
  unfolding normalize_by_length divide_by
  of_ending address ending =
      let previous = previous_of ending.history in
      let score = (entry_of ending.history).score in
      let node_length = sub32 ending.length 1 in
      record {
        packed = previous;
        path = record { address = address; nodes = ending.history ∷ [] };
        node_length = node_length;
        path_length = 1;
        multiplier = divide_by double score (normalized (node_length + 1) (score_at previous));
        score = score;
        end_features = ending.end_features;
      }

  -- The second one, of the second best of a node.
  unfoldable pub second_best : BreadCrumb D → ℕ → ℕ → Score D → List (LogScore D) → PartialHistory D
  unfolding normalize_by_length divide_by multiply_by
  second_best path node_length path_length best_score end_features =
      let previous = previous_of (get_or path.nodes 0 blank_node) in
      let words = node_length + path_length in
      let multiplier = divide_by double best_score (normalized words (score_at previous)) in
      record {
        packed = rest_of previous;
        path = path;
        node_length = node_length;
        path_length = path_length;
        multiplier = multiplier;
        score = multiply_by double (normalized words (score_at (rest_of previous))) multiplier;
        end_features = end_features;
      }

  -- The third one, which goes down to the next best.
  unfoldable pub next_best : PartialHistory D → PartialHistory D
  unfolding normalize_by_length multiply_by
  next_best from =
      let packed = rest_of from.packed in
      record from {
        packed = packed;
        score =
            multiply_by double (normalized (from.node_length + from.path_length) (score_at packed))
              from.multiplier;
      }

  -- HasNextBest
  abbrev pub has_next_best : PartialHistory D → Bool
  has_next_best p = ltb 1 (count_histories p.packed)

  -- operator<
  unfoldable pub partial_below : PartialHistory D → PartialHistory D → Bool
  partial_below left right =
      if double.same left.score.overall.log_value right.score.overall.log_value
      then ltb right.node_length left.node_length
      else is_below double left.score right.score

  -- The inner loop of Completed, which goes to the beginning of sentence and notes second choices. Its
  -- first argument is node_length + 1, which is 0 where the loop ends. A null pointer is `none`.
  unfoldable pub follow :
      PartialHistory D
      → ℕ
      → ℕ
      → Option (History D)
      → BreadCrumb D
      → Completion D
      → BreadCrumb D × Completion D
  unfolding count_histories second_best
  follow top zero path_length hist crumb c = (crumb, c)
  follow top (suc node_length) path_length none crumb c = (crumb, c)
  follow top (suc node_length) path_length (some h) crumb c =
      let here : BreadCrumb D = record { address = c.next_address; nodes = h ∷ crumb.nodes } in
      follow top node_length (path_length + 1) (first_of (previous_of h)) here (record c {
        next_address = c.next_address + 1;
        delayed =
            if ltb 1 (count_histories (previous_of h))
            then second_best here node_length path_length top.score top.end_features ∷ c.delayed
            else c.delayed;
      })

  -- Reset and AppendWord
  unfoldable pub completed_of : PartialHistory D → BreadCrumb D → CompletedHypothesis D
  completed_of top crumb = record {
    score = top.score;
    end_features = top.end_features;
    words = map (λ (h : History D). location (entry_of h).engine (entry_of h).offset) crumb.nodes;
  }

  -- The path is finished unless its pointer is in the set; the flag says that it is.
  unfoldable pub finish_sentence :
      PartialHistory D → BreadCrumb D × Completion D → Completion D × Bool
  unfolding completed_of
  finish_sentence top (crumb, c) = if queued crumb.address c.sentences then (c, false) else (
    record c {
      sentences = crumb.address ∷ c.sentences;
      finished = c.finished ++ (completed_of top crumb ∷ []);
    },
    true,
  )

  -- One round of Completed with the top of the queue and the rest of it.
  unfoldable pub complete_one :
      PartialHistory D → List (PartialHistory D) → Completion D → Completion D × Bool
  unfolding follow finish_sentence next_best
  complete_one top rest c = finish_sentence top (
      follow top top.node_length (top.path_length + 1) (first_of top.packed) top.path
        (record c { delayed = if has_next_best top then next_best top ∷ rest else rest }))

  module _ (top_of : List (PartialHistory D) → ℕ) where
    -- The loop of Completed, for at most so many rounds.
    unfoldable pub completed_loop : ℕ → ℕ → Completion D → Completion D
    unfolding complete_one remove_at
    completed_loop zero number c = c
    completed_loop (suc fuel) number c = elim c.delayed [
      | [] ↦ c
      | first ∷ others ↦
          let i = top_of (first ∷ others) in
          let (next, added) =
            complete_one (get_or (first ∷ others) i first) (remove_at i (first ∷ others)) c in
          elim (added && length next.finished == number) [
            | true ↦ next
            | false ↦ completed_loop fuel number next
          ]
    ]

    -- The first loop of MakeCompletedHypotheses: an entry of the queue for each ending hypothesis.
    unfoldable pub queue_endings : List (EndingHypothesis D) → Completion D → Completion D
    unfolding of_ending
    queue_endings [] c = c
    queue_endings (e ∷ rest) c = queue_endings rest (record c {
      delayed = of_ending c.next_address e ∷ c.delayed;
      next_address = c.next_address + 1;
    })

    abbrev pub nothing_completed : Completion D
    nothing_completed = record { delayed = []; sentences = []; finished = []; next_address = 0 }

    abbrev pub endings_of :
        EndingHypothesis D → Beam (EndingHypothesis D) → List (EndingHypothesis D)
    endings_of blank beam = map (value blank beam.storage.owner) (slots beam.storage)

    -- The state that MakeCompletedHypotheses ends with.
    unfoldable pub complete : EndingHypothesis D → ℕ → Beam (EndingHypothesis D) → Completion D
    unfolding completed_loop queue_endings
    complete blank fuel beam =
        completed_loop fuel beam.storage.max_size
          (queue_endings (endings_of blank beam) nothing_completed)

    -- MakeCompletedHypotheses
    unfoldable pub make_completed_hypotheses :
        EndingHypothesis D → ℕ → Beam (EndingHypothesis D) → List (CompletedHypothesis D)
    unfolding complete
    make_completed_hypotheses blank fuel beam = (complete blank fuel beam).finished
