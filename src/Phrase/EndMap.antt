-- ===== src/Phrase/EndMap.antt =====
-- The map from the ends of phrases to their types: lookups after AddEnd, the order of the keys, and
-- the longest phrase within a bound.
use Prim.Native.Nat.{bit_or}
use memt.Prelude.{
  ℕ, suc, ◌≤◌, ◌<◌, ◌≡◌, refl, Bool, true, false, [], ◌∷◌, none, some, ◌==◌, if◌then◌else◌, arith,
  inl, inr, Option-cases,
}
use memt.Phrase.{EndMap, insert_end, last_within}

-- The type of the phrase that ends at `end`, 0 if there is none.
unfoldable pub type_of : ℕ → EndMap → ℕ
type_of end [] = 0
type_of end ((k, t) ∷ m) = if end == k then t else type_of end m

-- The keys ascend and are not below `lo`.
abbrev pub Ascends : ℕ → EndMap → Type 0
Ascends lo [] = Unit {0}
Ascends lo ((k, t) ∷ m) = (lo ≤ k) × Ascends (suc k) m

pub Ascends-mono : (lo hi : ℕ) (m : EndMap) → lo ≤ hi → Ascends hi m → Ascends lo m
Ascends-mono lo hi [] h a = tt
Ascends-mono lo hi ((k, t) ∷ m) h a = (omega arith, a.1)

pub insert_end-Ascends :
    (end type lo : ℕ) (m : EndMap) → lo ≤ end → Ascends lo m → Ascends lo (insert_end end type m)
unfolding insert_end
insert_end-Ascends end type lo [] h a = (h, tt)
insert_end-Ascends end type lo ((k, t) ∷ m) h a =
    ground (arith, a, insert_end-Ascends end type (suc k) m)

pub type_of-below : (end lo : ℕ) (m : EndMap) → Ascends lo m → end < lo → type_of end m ≡ 0
unfolding type_of
type_of-below end lo [] a h = refl
type_of-below end lo ((k, t) ∷ m) a h = ground (arith, type_of-below end (suc k) m a.1)

-- Where the ends ascend, AddEnd joins the type to that of the phrase with the same end, and changes no
-- other phrase.
pub type_of-insert_end :
    (end type e lo : ℕ) (m : EndMap)
    → Ascends lo m
    → type_of e (insert_end end type m)
      ≡ (if e == end then bit_or (type_of e m) type else type_of e m)
unfolding type_of insert_end
type_of-insert_end end type e lo [] a = ground arith
type_of-insert_end end type e lo ((k, t) ∷ m) a =
    ground (arith, type_of-insert_end end type e (suc k) m a.1, type_of-below end (suc k) m a.1)

-- Is there a phrase with this end?
unfoldable pub has_end : ℕ → EndMap → Bool
has_end end [] = false
has_end end ((k, t) ∷ m) = if end == k then true else has_end end m

pub has_end-lo : (e lo : ℕ) (m : EndMap) → Ascends lo m → has_end e m ≡ true → lo ≤ e
unfolding has_end
has_end-lo e lo [] a h = ground arith
has_end-lo e lo ((k, t) ∷ m) a h = ground (arith, has_end-lo e (suc k) m a.1)

pub last_within-none :
    (bound lo : ℕ) (m : EndMap) (f : ℕ)
    → Ascends lo m
    → last_within bound m ≡ none
    → has_end f m ≡ true
    → bound < f
unfolding last_within has_end
last_within-none bound lo [] f a h k = ground arith
last_within-none bound lo ((k, t) ∷ m) f a h g =
    ground (arith, has_end-lo f (suc k) m a.1, last_within-none bound (suc k) m f a.1)

-- Where the ends ascend, what `--upper_bound` finds is the longest phrase within the bound.
pub last_within-some :
    (bound lo : ℕ) (m : EndMap) (e : ℕ)
    → Ascends lo m
    → last_within bound m ≡ some e
    → (has_end e m ≡ true) × (e ≤ bound) × ((f : ℕ) → has_end f m ≡ true → f ≤ bound → f ≤ e)
unfolding last_within has_end
last_within-some bound lo [] e a h = absurd (cc)
last_within-some bound lo ((k, t) ∷ m) e a h = elim (Option-cases (last_within bound m)) [
  | inl n ↦
      (ground arith, ground arith, λ f g b. ground (arith, last_within-none bound (suc k) m f a.1))
  | inr (d, s) ↦
      let (found, within, longest) = last_within-some bound (suc k) m d a.1 s in
      (
        ground (arith, has_end-lo d (suc k) m a.1),
        ground arith,
        λ f g b. ground (arith, longest f, has_end-lo d (suc k) m a.1),
      )
]
