-- ===== src/Beam/Tests.antt =====
-- A beam of two numbers.
use memt.Prelude.{
  remove, ℕ, ◌≡◌, ◌↔◌, refl, true, false, none, List, Bool, ◌==◌, [], ◌∷◌, map, ltb, length, queued,
  arith, inl,
}
use memt.Beam.{
  full_less, replace_available, hash_dupe, insert, insert_available, settle, build_dropper,
  use_available, Beam, null_dupe, in_use, value, reset_beam, reset_storage, may_make_it,
  destructive_increasing_vector, null_merge, set_begin, one_best_merge,
}
use memt.Beam.Sound.{IsSound, IsBottom, reset_beam-IsSound}
use memt.Beam.Best.{AreBest, IsBeaten, insert_all, insert_all-AreBest}
use memt.Beam.Begin.{IsOrder, set_begin-IsBottom}
use memt.Beam.Order.{IsIncreasing, may_make_it_iff, destructive_increasing_vector-IsIncreasing}
use memt.Beam.Dupes.{IsEquivalence}
use memt.Beam.Merging.{Laws, Covers}
use memt.Beam.Unique.{
  one_best_merge-IsMerge, insert_merging, insert_merging_apart, insert_merging-AreBest,
}

ltb-IsOrder : IsOrder ltb
ltb-IsOrder = record {
  irreflexive = λ a. ground arith;
  asymmetric = λ a b h. ground arith;
  through = λ a b c h k. ground arith;
}

begin-IsBottom : IsBottom 0 ltb (set_begin 0 ltb)
begin-IsBottom = set_begin-IsBottom 0 ltb ltb-IsOrder

abbrev new_beam : Beam ℕ
new_beam = record {
  storage = record { max_size = 0; size = 0; owner = []; available = 0 };
  dropper = none;
  known = [];
}

abbrev empty_beam : Beam ℕ
empty_beam = reset_beam 0 2 new_beam

insert_all-AreBest_example :
    AreBest 0 ltb
      (λ (a c : ℕ). a ≡ c)
      (5 ∷ 1 ∷ 7 ∷ 4 ∷ [])
      (insert_all 0 ltb null_merge (set_begin 0 ltb) (5 ∷ 1 ∷ 7 ∷ 4 ∷ []) empty_beam)
insert_all-AreBest_example =
    insert_all-AreBest 0 ltb null_merge (set_begin 0 ltb) begin-IsBottom ltb-IsOrder.through 2
      new_beam (5 ∷ 1 ∷ 7 ∷ 4 ∷ []) (omega arith) (inl refl)

may_make_it_iff_example :
    (may_make_it 0 ltb null_dupe null_merge (set_begin 0 ltb) empty_beam 3 ≡ false)
    ↔ IsBeaten 0 ltb 3 empty_beam
unfolding reset_beam reset_storage
may_make_it_iff_example =
    may_make_it_iff 0 ltb null_dupe null_merge (set_begin 0 ltb) begin-IsBottom ltb-IsOrder.through
      empty_beam 3 (reset_beam-IsSound 0 2 new_beam (omega arith) (inl refl)) (omega arith)

abbrev one_value : Beam ℕ
one_value = record {
  storage = record { max_size = 2; size = 1; owner = 3 ∷ 0 ∷ 0 ∷ []; available = 1 };
  dropper = none;
  known = [];
}

one_value-IsSound : IsSound one_value
one_value-IsSound = record {
  sized = refl;
  room = omega arith;
  filling = λ h. (refl, refl);
  full = λ e. absurd (omega arith);
}

set_begin-IsBottom_example :
    (queued (set_begin 0 ltb (3 ∷ 1 ∷ []) (0 ∷ 1 ∷ [])) (0 ∷ 1 ∷ []) ≡ true)
    × (ltb 3 (value 0 (3 ∷ 1 ∷ []) (set_begin 0 ltb (3 ∷ 1 ∷ []) (0 ∷ 1 ∷ []))) ≡ false)
unfolding queued
set_begin-IsBottom_example = set_begin-IsBottom 0 ltb ltb-IsOrder (3 ∷ 1 ∷ []) (0 ∷ 1 ∷ []) 0 refl

destructive_increasing_vector-IsIncreasing_example :
    (q : List ℕ) × (destructive_increasing_vector 0 ltb null_dupe null_merge
        (set_begin 0 ltb)
        one_value
      ≡ map (value 0 one_value.storage.owner) q)
    × (length q ≡ one_value.storage.size)
    × ((i : ℕ) → queued i q ≡ in_use one_value.storage i)
    × IsIncreasing 0 ltb one_value.storage.owner q
destructive_increasing_vector-IsIncreasing_example =
    destructive_increasing_vector-IsIncreasing 0 ltb null_dupe null_merge (set_begin 0 ltb)
      begin-IsBottom one_value one_value-IsSound

-- Scored words: equal by the word, ordered by the score.
abbrev lower : ℕ × ℕ → ℕ × ℕ → Bool
lower a b = ltb a.1 b.1

abbrev same_word : ℕ × ℕ → ℕ × ℕ → Bool
same_word a b = a.0 == b.0

lower-IsOrder : IsOrder lower
lower-IsOrder = record {
  irreflexive = λ a. ground arith;
  asymmetric = λ a b h. ground arith;
  through = λ a b c h k. ground arith;
}

same_word-IsEquivalence : IsEquivalence same_word
same_word-IsEquivalence = record {
  reflexive = λ a. ground arith;
  symmetric = λ a b h. ground arith;
  transitive = λ a b c h k. ground arith;
}

scored-Laws : Laws (0, 0) lower same_word (one_best_merge lower) (set_begin (0, 0) lower)
scored-Laws = record {
  equivalence = same_word-IsEquivalence;
  merges =
      one_best_merge-IsMerge lower same_word same_word-IsEquivalence lower-IsOrder.irreflexive
        lower-IsOrder.asymmetric;
  is_bottom = set_begin-IsBottom (0, 0) lower lower-IsOrder;
  irreflexive = lower-IsOrder.irreflexive;
  through = lower-IsOrder.through;
}

abbrev no_words : Beam (ℕ × ℕ)
no_words = record {
  storage = record { max_size = 0; size = 0; owner = []; available = 0 };
  dropper = none;
  known = [];
}

abbrev words : List (ℕ × ℕ)
words = (1, 9) ∷ (2, 5) ∷ (1, 7) ∷ (3, 8) ∷ (2, 6) ∷ []

abbrev word_beam : Beam (ℕ × ℕ)
word_beam =
    insert_merging (0, 0) lower same_word (one_best_merge lower) (set_begin (0, 0) lower) words
      (reset_beam (0, 0) 2 no_words)

insert_merging_apart_example :
    same_word (value (0, 0) word_beam.storage.owner 1) (value (0, 0) word_beam.storage.owner 2)
    ≡ false
unfolding hash_dupe insert insert_available reset_beam reset_storage settle set_begin build_dropper
    use_available full_less replace_available remove
insert_merging_apart_example =
    insert_merging_apart (0, 0) lower same_word (one_best_merge lower) (set_begin (0, 0) lower)
      scored-Laws 2 no_words (omega arith) (inl refl) words 1 2 refl refl (omega arith)

insert_merging-AreBest_example :
    AreBest (0, 0) lower (Covers (0, 0) lower same_word) words word_beam
insert_merging-AreBest_example =
    insert_merging-AreBest (0, 0) lower same_word (one_best_merge lower) (set_begin (0, 0) lower)
      scored-Laws 2 no_words (omega arith) (inl refl) words
