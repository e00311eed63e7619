-- ===== src/Prelude/Queues.antt =====
-- Queues of numbers: a number is in a queue, and is taken out of it.
use native.Mathlib.Decide.{ℕ_discrete}
use mathlib.Core.Bool.{Bool, true, false, not, ◌&&◌, ◌||◌, false≢true}
use mathlib.Core.Path.{◌≡◌, refl}
use mathlib.Core.Logic.{◌≢◌}
use mathlib.Core.List.{List, [], ◌∷◌}
use Prim.Native.Nat.{ℕ, suc}
use native.Mathlib.Omega.{arith}
use memt.Prelude.Lists.{length}
use memt.Prelude.Tests.{◌==◌, if◌then◌else◌}

unfoldable pub remove : ℕ → List ℕ → List ℕ
remove i [] = []
remove i (j ∷ q) = if i == j then q else j ∷ remove i q

unfoldable pub is_empty : List ℕ → Bool
is_empty [] = true
is_empty (i ∷ q) = false

unfoldable pub queued : ℕ → List ℕ → Bool
queued i [] = false
queued i (j ∷ q) = i == j || queued i q

pub queued-is_empty : (i : ℕ) (q : List ℕ) → queued i q ≡ true → is_empty q ≡ false
unfolding queued is_empty
queued-is_empty i [] h = absurd (false≢true h)
queued-is_empty i (j ∷ q) h = refl

pub queued-remove : (i j : ℕ) (q : List ℕ) → queued j (remove i q) ≡ true → queued j q ≡ true
unfolding queued remove
queued-remove i j [] h = h
queued-remove i j (k ∷ q) h = ground (arith, queued-remove i j q)

pub queued-remove_ne :
    (i j : ℕ) (q : List ℕ) → j ≢ i → queued j q ≡ true → queued j (remove i q) ≡ true
unfolding queued remove
queued-remove_ne i j [] n h = h
queued-remove_ne i j (k ∷ q) n h = ground (arith, queued-remove_ne i j q)

-- No engine is in the queue twice.
unfoldable pub distinct : List ℕ → Bool
distinct [] = true
distinct (j ∷ q) = not (queued j q) && distinct q

pub distinct-remove :
    (i : ℕ) (q : List ℕ)
    → distinct q ≡ true
    → (distinct (remove i q) ≡ true) × (queued i (remove i q) ≡ false)
unfolding distinct queued remove
distinct-remove i [] d = (refl, refl)
distinct-remove i (j ∷ q) d = elim (ℕ_discrete i j) [
  | yes same ↦ ground arith
  | no other ↦ ground (arith, distinct-remove i q, queued-remove i j q)
]

pub length-remove : (i : ℕ) (q : List ℕ) → queued i q ≡ true → suc (length (remove i q)) ≡ length q
unfolding queued remove
length-remove i [] h = absurd (false≢true h)
length-remove i (j ∷ q) h = ground (arith, length-remove i q)

-- A number that is taken out and put before the others.
pub queued_again :
    (k j : ℕ) (q : List ℕ) → queued k q ≡ true → (j == k || queued j (remove k q)) ≡ queued j q
unfolding queued remove
queued_again k j [] h = absurd (false≢true h)
queued_again k j (i ∷ q) h = ground (arith, queued_again k j q)
