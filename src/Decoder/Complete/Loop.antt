-- ===== src/Decoder/Complete/Loop.antt =====
-- The rounds of Completed: each finishes one sentence, of the length that its top promises.
use native.Mathlib.Decide.{ℕ_discrete}
use memt.Input.{location}
use memt.Prelude.{
  length-map, ℕ, zero, suc, ◌+◌, ◌≤◌, ◌<◌, ◌≡◌, ◌∙◌, refl, sym, ap, subst, Bool, true, some, List,
  [], ◌∷◌, ◌++◌, ltb, arith, inl, inr, Bool-cases, if◌then◌else◌, length, queued,
}
use memt.Beam.Keeps.{Each}
use memt.Decoder.Score.{Doubles, Score, LogScore}
use memt.Decoder.History.{History, Histories, no_more, before, previous_of, first_of, entry_of}
use memt.Decoder.Depth.{is_deep, each_deep, is_deep-root, is_deep-first, is_deep-previous}
use memt.Decoder.Complete.{
  PartialHistory, BreadCrumb, CompletedHypothesis, Completion, count_histories, rest_of,
  second_best, next_best, has_next_best, follow, completed_of, finish_sentence, complete_one,
}

-- An entry of the queue: what is left is packed at a node that has so many words before it, and the path
-- has as many nodes as it says.
pub record IsReady {ℓ} {D : Type ℓ} (p : PartialHistory D) : Type 0 where
  pub words_before : 0 < p.node_length
  pub packs : 0 < count_histories p.packed
  pub deep : each_deep p.packed p.node_length ≡ true
  pub long : length p.path.nodes ≡ p.path_length

-- The addresses in the set are of nodes that were made.
pub record IsCompletion {ℓ} {D : Type ℓ} (c : Completion D) : Type ℓ where
  pub ready : Each (λ (p : PartialHistory D). IsReady p) c.delayed
  pub old : (a : ℕ) → queued a c.sentences ≡ true → a < c.next_address

each_deep-rest_of {ℓ} :
    {D : Type ℓ} (hs : Histories D) (n : ℕ)
    → each_deep hs n ≡ true
    → each_deep (rest_of hs) n ≡ true
unfolding each_deep
each_deep-rest_of no_more n d = d
each_deep-rest_of (before h rest) n d = ground arith

count_histories-rest_of {ℓ} :
    {D : Type ℓ} (hs : Histories D) → 1 < count_histories hs → 0 < count_histories (rest_of hs)
unfolding count_histories
count_histories-rest_of no_more h = omega arith
count_histories-rest_of (before h' rest) h = omega arith

words_before {ℓ} :
    {D : Type ℓ} (h : History D) (n : ℕ)
    → is_deep h (suc n) ≡ true
    → 1 < count_histories (previous_of h)
    → 0 < n
unfolding count_histories
words_before h zero d many =
    absurd (omega (arith, subst (λ hs. 1 < count_histories hs) (is_deep-root h d) many))
words_before h (suc n) d many = omega arith

module _ {ℓ} {D : Type ℓ} (double : Doubles D) (combine : ℕ → ℕ → ℕ) (normalize : Bool) where
  second_best-IsReady :
      (h : History D) (nodes : List (History D)) (address n path_length : ℕ) (score : Score D)
      (features : List (LogScore D))
      → is_deep h (suc n) ≡ true
      → 1 < count_histories (previous_of h)
      → path_length ≡ length nodes + 1
      → IsReady (
          second_best double combine normalize
            (record { address = address; nodes = h ∷ nodes })
            n
            path_length
            score
            features)
  unfolding second_best
  second_best-IsReady h nodes address n path_length score features d many e = record {
    words_before = words_before h n d many;
    packs = count_histories-rest_of (previous_of h) many;
    deep = each_deep-rest_of (previous_of h) n (is_deep-previous h n d);
    long = omega arith;
  }

  next_best-IsReady :
      (p : PartialHistory D)
      → IsReady p
      → 1 < count_histories p.packed
      → IsReady (next_best double combine normalize p)
  unfolding next_best
  next_best-IsReady p r many = record {
    words_before = r.words_before;
    packs = count_histories-rest_of p.packed many;
    deep = each_deep-rest_of p.packed p.node_length r.deep;
    long = r.long;
  }

  -- What following a path leaves.
  pub record IsFollowed (n : ℕ) (crumb : BreadCrumb D) (c : Completion D)
      (r : BreadCrumb D × Completion D) : Type ℓ where
    pub ready : Each (λ (p : PartialHistory D). IsReady p) r.1.delayed
    pub same_sentences : r.1.sentences ≡ c.sentences
    pub same_finished : r.1.finished ≡ c.finished
    pub new : c.next_address ≤ r.0.address
    pub made : r.0.address < r.1.next_address
    pub long : length r.0.nodes ≡ length crumb.nodes + n

  -- The queue with the second choice at a node, if there is one.
  pushed :
      (h : History D) (crumb : BreadCrumb D) (address n path_length : ℕ) (score : Score D)
      (features : List (LogScore D)) (delayed : List (PartialHistory D))
      → is_deep h (suc n) ≡ true
      → path_length ≡ length crumb.nodes + 1
      → Each (λ (p : PartialHistory D). IsReady p) delayed
      → Each
          (λ (p : PartialHistory D). IsReady p)
          (if ltb 1 (count_histories (previous_of h))
            then second_best double combine normalize
                (record { address = address; nodes = h ∷ crumb.nodes })
                n
                path_length
                score
                features
              ∷ delayed
            else delayed)
  pushed h crumb address n path_length score features delayed d e r =
      elim (Bool-cases (ltb 1 (count_histories (previous_of h)))) [
        | inl many ↦ rw many (
          second_best-IsReady h crumb.nodes address n path_length score features d (ground arith) e,
          r,
        )
        | inr few ↦ rw few r
      ]

  follow-IsFollowed :
      (top : PartialHistory D) (n path_length : ℕ) (h : History D) (crumb : BreadCrumb D)
      (c : Completion D)
      → is_deep h (suc n) ≡ true
      → path_length ≡ length crumb.nodes + 1
      → Each (λ (p : PartialHistory D). IsReady p) c.delayed
      → IsFollowed
          (suc n)
          crumb
          c
          (follow double combine normalize top (suc n) path_length (some h) crumb c)
  unfolding follow
  follow-IsFollowed top zero path_length h crumb c d e r = record {
    ready = pushed h crumb c.next_address 0 path_length _ _ c.delayed d e r;
    same_sentences = refl;
    same_finished = refl;
    new = omega arith;
    made = omega arith;
    long = omega arith;
  }
  follow-IsFollowed top (suc n) path_length h crumb c d e r =
      let (p, first, deep) = is_deep-first h n d in
      let here : BreadCrumb D = record { address = c.next_address; nodes = h ∷ crumb.nodes } in
      let queue =
        if ltb 1 (count_histories (previous_of h))
        then second_best double combine normalize here (suc n) path_length top.score
            top.end_features
          ∷ c.delayed
        else c.delayed in
      let later : Completion D = record c { next_address = c.next_address + 1; delayed = queue } in
      let rest = follow-IsFollowed top n (path_length + 1) p here later deep (omega arith) (
        pushed h crumb c.next_address (suc n) path_length top.score top.end_features c.delayed d e
          r) in
      subst
        (λ o.
          IsFollowed (suc (suc n)) crumb c
            (follow double combine normalize top (suc n) (path_length + 1) o here later))
        (sym first)
        (record {
          ready = rest.ready;
          same_sentences = rest.same_sentences;
          same_finished = rest.same_finished;
          new = omega (arith, rest.new);
          made = rest.made;
          long = omega (arith, rest.long);
        })

  follow_some-IsFollowed :
      (top : PartialHistory D) (n path_length : ℕ) (packed : Histories D) (crumb : BreadCrumb D)
      (c : Completion D)
      → 0 < n
      → 0 < count_histories packed
      → each_deep packed n ≡ true
      → path_length ≡ length crumb.nodes + 1
      → Each (λ (p : PartialHistory D). IsReady p) c.delayed
      → IsFollowed n crumb c
          (follow double combine normalize top n path_length (first_of packed) crumb c)
  unfolding count_histories each_deep
  follow_some-IsFollowed top zero path_length packed crumb c pos some_left d e r =
      absurd (omega arith)
  follow_some-IsFollowed top (suc n) path_length no_more crumb c pos some_left d e r =
      absurd (omega arith)
  follow_some-IsFollowed top (suc n) path_length (before h rest) crumb c pos some_left d e r =
      follow-IsFollowed top n path_length h crumb c (ground arith) e r

  -- What one round does: a hypothesis with as many words as the top promises is finished.
  pub record IsCompleted (top : PartialHistory D) (c : Completion D) (r : Completion D × Bool)
      : Type ℓ where
    pub rest : IsCompletion r.0
    pub added : r.1 ≡ true
    pub new : CompletedHypothesis D
    pub appended : r.0.finished ≡ c.finished ++ (new ∷ [])
    pub long : length new.words ≡ top.path_length + top.node_length

  finish_sentence-IsCompleted :
      (top : PartialHistory D) (c : Completion D) (r : BreadCrumb D × Completion D)
      → IsFollowed top.node_length top.path c r
      → length top.path.nodes ≡ top.path_length
      → ((a : ℕ) → queued a c.sentences ≡ true → a < c.next_address)
      → IsCompleted top c (finish_sentence double combine normalize top r)
  unfolding finish_sentence queued completed_of
  finish_sentence-IsCompleted top c (crumb, after) f long old =
      let known : (a : ℕ) → queued a after.sentences ≡ true → a < c.next_address =
        λ a q. old a (ap (queued a) (sym f.same_sentences) ∙ q) in
      elim (Bool-cases (queued crumb.address after.sentences)) [
        | inl q ↦ absurd (omega (arith, known crumb.address q, f.new))
        | inr e ↦ rw e (record {
          rest = record {
            ready = f.ready;
            old = λ a q. elim (ℕ_discrete a crumb.address) [
              | yes here ↦ omega (arith, f.made)
              | no there ↦ omega (arith, known a (ground arith), f.new, f.made)
            ];
          };
          added = refl;
          new = completed_of double combine normalize top crumb;
          appended =
              ap (λ l. l ++ (completed_of double combine normalize top crumb ∷ [])) f.same_finished;
          long = omega (
            arith,
            length-map (λ (h : History D). location (entry_of h).engine (entry_of h).offset)
                crumb.nodes,
            f.long,
            long,
          );
        })
      ]

  next-IsReady :
      (top : PartialHistory D) (rest : List (PartialHistory D))
      → IsReady top
      → Each (λ (p : PartialHistory D). IsReady p) rest
      → Each
          (λ (p : PartialHistory D). IsReady p)
          (if has_next_best double combine normalize top
            then next_best double combine normalize top ∷ rest
            else rest)
  next-IsReady top rest t r = elim (Bool-cases (ltb 1 (count_histories top.packed))) [
    | inl many ↦ rw many (next_best-IsReady top t (ground arith), r)
    | inr few ↦ rw few r
  ]

  -- A round of Completed finishes one hypothesis, whatever its words are: a path that is new has a new
  -- pointer, so that none is taken for a duplicate. The hypothesis has as many words as the top of the
  -- queue promises before and on its path, and what it leaves in the queue is ready again. The top and
  -- the rest of the queue are ready, and the pointers in the set are of nodes that were made.
  pub complete_one-IsCompleted :
      (top : PartialHistory D) (rest : List (PartialHistory D)) (c : Completion D)
      → IsReady top
      → Each (λ (p : PartialHistory D). IsReady p) rest
      → ((a : ℕ) → queued a c.sentences ≡ true → a < c.next_address)
      → IsCompleted top c (complete_one double combine normalize top rest c)
  unfolding complete_one
  complete_one-IsCompleted top rest c t r old =
      let popped : Completion D = record c {
        delayed =
            if has_next_best double combine normalize top
            then next_best double combine normalize top ∷ rest
            else rest;
      } in
      let done =
        finish_sentence-IsCompleted top popped _
          (follow_some-IsFollowed top top.node_length (top.path_length + 1) top.packed top.path
            popped t.words_before t.packs t.deep (omega (arith, t.long))
            (next-IsReady top rest t r))
          t.long old in
      record {
        rest = done.rest;
        added = done.added;
        new = done.new;
        appended = done.appended;
        long = done.long;
      }
