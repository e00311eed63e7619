-- ===== src/Decoder/History.antt =====
-- MEMT/Decoder/History.hh and MEMT/Decoder/HistoryBeam.{hh,cc}: the lattice of histories, and the beam
-- that packs histories of one hypothesis. A history is shared only when it does not change any more, so
-- a pointer to it is its value. hash_combine, of boost, is the parameter `combine`.
use memt.Prelude.{ℕ, ◌==◌, Bool, Option, none, some, List, [], ◌∷◌, if◌then◌else◌}
use memt.Beam.{
  Beam, hash_dupe, one_best_merge, value, slots, may_make_it, insert, destructive_increasing_vector,
}
use memt.Decoder.Score.{Doubles, Score, unset_score, is_below}

pub record HistoryEntry {ℓ} (D : Type ℓ) : Type ℓ where
  pub score : Score D
  pub word : ℕ
  pub engine : ℕ
  pub offset : ℕ

mutual
  -- HypHistory: its entry, the histories before it, and its hash.
  pub data History {ℓ} (D : Type ℓ) : Type ℓ where
    node : HistoryEntry D → Histories D → ℕ → History D

  pub data Histories {ℓ} (D : Type ℓ) : Type ℓ where
    no_more : Histories D
    before : History D → Histories D → Histories D

abbrev pub entry_of {ℓ} : {D : Type ℓ} → History D → HistoryEntry D
entry_of (node entry previous hash) = entry

abbrev pub previous_of {ℓ} : {D : Type ℓ} → History D → Histories D
previous_of (node entry previous hash) = previous

abbrev pub hash_of {ℓ} : {D : Type ℓ} → History D → ℕ
hash_of (node entry previous hash) = hash

-- BestPrevious, AnyPrevious
abbrev pub first_of {ℓ} : {D : Type ℓ} → Histories D → Option (History D)
first_of no_more = none
first_of (before h rest) = some h

abbrev pub with_entry {ℓ} : {D : Type ℓ} → HistoryEntry D → History D → History D
with_entry entry (node _ previous hash) = node entry previous hash

abbrev pub with_previous {ℓ} : {D : Type ℓ} → Histories D → History D → History D
with_previous previous (node entry _ hash) = node entry previous hash

unfoldable pub from_list {ℓ} : {D : Type ℓ} → List (History D) → Histories D
from_list [] = no_more
from_list (h ∷ hs) = before h (from_list hs)

-- Reset
abbrev pub reset_history {ℓ} : {D : Type ℓ} → History D → History D
reset_history (node entry previous hash) = node entry no_more hash

module _ {ℓ} {D : Type ℓ} (double : Doubles D) (combine : ℕ → ℕ → ℕ) where
  unfoldable pub combine_hashes : ℕ → Histories D → ℕ
  combine_hashes hash no_more = hash
  combine_hashes hash (before h rest) = combine_hashes (combine hash (hash_of h)) rest

  -- MakeHash
  unfoldable pub make_hash : History D → History D
  unfolding combine_hashes
  make_hash (node entry previous hash) =
      node entry previous (combine_hashes (combine 0 entry.word) previous)

  abbrev pub unset_entry : HistoryEntry D
  unset_entry = record { score = unset_score double; word = 0; engine = 0; offset = 0 }

  -- A new FastHypHistory.
  abbrev pub new_history : History D
  new_history = node unset_entry no_more 0

  -- InitializeRoot; the score is set separately.
  unfoldable pub root_history : ℕ → History D → History D
  unfolding make_hash
  root_history sentence_begin (node entry previous hash) =
      make_hash (node (record entry { word = sentence_begin; engine = 0; offset = 0 }) no_more hash)

  -- HistoryLess
  abbrev pub history_below : History D → History D → Bool
  history_below left right = is_below double (entry_of left).score (entry_of right).score

  -- EqualsHashOnly
  abbrev pub same_hash : History D → History D → Bool
  same_hash left right = hash_of left == hash_of right

  module _ (bottom : List (History D) → List ℕ → ℕ) where
    abbrev pub insert_history : History D → Beam (History D) → Beam (History D)
    insert_history =
        insert new_history history_below (hash_dupe new_history same_hash)
          (one_best_merge history_below) bottom

    -- *unordered_begin()
    abbrev pub first_slot : List ℕ → ℕ
    first_slot [] = 0
    first_slot (i ∷ rest) = i

    abbrev pub first_value : Beam (History D) → History D
    first_value b = value new_history b.storage.owner (first_slot (slots b.storage))

    -- MergeSizeOneHistoryBeam
    unfoldable pub merge_size_one : Beam (History D) → Beam (History D) → Beam (History D)
    merge_size_one into with_beam =
        let h = first_value with_beam in
        if may_make_it new_history history_below (hash_dupe new_history same_hash)
          (one_best_merge history_below) bottom into h
        then insert_history h into
        else into

    unfoldable pub reverse_onto : List (History D) → List (History D) → List (History D)
    reverse_onto [] done = done
    reverse_onto (h ∷ rest) done = reverse_onto rest (h ∷ done)

    -- DumpBeamToHypHistory
    unfoldable pub dump_beam : Beam (History D) → History D → History D
    unfolding from_list make_hash reverse_onto
    dump_beam b h = make_hash (
        with_previous
          (from_list (
            reverse_onto
              (destructive_increasing_vector new_history history_below
                (hash_dupe new_history same_hash) (one_best_merge history_below) bottom b)
              []))
          h)
