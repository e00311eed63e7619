-- ===== src/Input/Closure/Visit.antt =====
-- What the visit of a word adds to the locations that are seen and open.
use native.Mathlib.Decide.{ℕ_discrete}
use mathlib.Core.Bool.{false≢true}
use memt.Prelude.{
  ℕ, zero, suc, ◌+◌, ◌≤◌, ◌<◌, ◌≡◌, ◌⊎◌, ◌∙◌, refl, sym, ap, ap₂, subst, Bool, true, false, not,
  ◌&&◌, ◌||◌, List, [], ◌∷◌, if◌then◌else◌, length, arith, inl, inr, Bool-cases, ==_self, ==_iff,
  &&-true,
}
use memt.Input.{Location, location, less_location, WordAlignments, ask, is_connection}
use memt.Input.Closure.{eq_location, located, insert_location, aligned_at, visit}

pub eq_location-true : (l m : Location) → eq_location l m ≡ true → l ≡ m
eq_location-true l m h =
    ap₂ location ((==_iff l.engine m.engine).0 (&&-true h).0)
      ((==_iff l.offset m.offset).0 (&&-true h).1)

pub eq_location_self : (l : Location) → eq_location l l ≡ true
eq_location_self l = ground (arith, ==_self l.engine, ==_self l.offset)

pub located-insert_location :
    (m l : Location) (seen : List Location)
    → located m (insert_location l seen) ≡ eq_location m l || located m seen
unfolding located insert_location less_location
located-insert_location m l [] = refl
located-insert_location m l (k ∷ seen) = ground (arith, located-insert_location m l seen)

-- The words of `all` that are not seen.
unfoldable pub unseen : List Location → List Location → ℕ
unseen [] seen = 0
unseen (l ∷ all) seen = if located l seen then unseen all seen else suc (unseen all seen)

unseen-insert-le :
    (l : Location) (all seen : List Location)
    → unseen all (insert_location l seen) ≤ unseen all seen
unfolding unseen
unseen-insert-le l [] seen = omega arith
unseen-insert-le l (k ∷ all) seen =
    ground (arith, unseen-insert-le l all seen, located-insert_location k l seen)

pub unseen-insert :
    (l : Location) (all seen : List Location)
    → located l all ≡ true
    → located l seen ≡ false
    → suc (unseen all (insert_location l seen)) ≤ unseen all seen
unfolding unseen located
unseen-insert l [] seen h k = absurd (false≢true h)
unseen-insert l (m ∷ all) seen h k = elim (Bool-cases (eq_location l m)) [
  | inl same ↦
      let e : l ≡ m = eq_location-true l m same in
      let missing : located m seen ≡ false = sym (ap (λ x. located x seen) e) ∙ k in
      ground (
        arith,
        located-insert_location m l seen,
        eq_location_self m,
        unseen-insert-le l all seen,
        ap (λ x. eq_location m x) e,
      )
  | inr other ↦ ground (arith, unseen-insert l all seen, located-insert_location m l seen)
]

-- An alignment to one of the engines.
abbrev pub Later : ℕ → ℕ → WordAlignments → Location → Type 0
Later rounds other al m =
    (e : ℕ) × (other ≤ e)
    × (e < other + rounds)
    × (is_connection (ask al e) ≡ true)
    × (m ≡ aligned_at al e)

-- What a visit from `other` on, of `rounds` engines, leaves.
pub record IsVisited (rounds other : ℕ) (al : WordAlignments)
    (opened seen opened' seen' : List Location) : Type 0 where
  pub grows : (m : Location) → located m seen ≡ true → located m seen' ≡ true
  pub opens : (m : Location) → located m opened ≡ true → located m opened' ≡ true
  pub seen_opened :
      (m : Location) → located m seen' ≡ true → (located m seen ≡ true) ⊎ (located m opened' ≡ true)
  pub opened_seen :
      (m : Location)
      → located m opened' ≡ true
      → (located m opened ≡ true) ⊎ (located m seen' ≡ true)
  pub aligned :
      (m : Location) → located m seen' ≡ true → (located m seen ≡ true) ⊎ Later rounds other al m
  pub all :
      (e : ℕ)
      → other ≤ e
      → e < other + rounds
      → is_connection (ask al e) ≡ true
      → located (aligned_at al e) seen' ≡ true

pub split_located :
    (m to : Location) (seen : List Location)
    → (eq_location m to || located m seen) ≡ true
    → (m ≡ to) ⊎ (located m seen ≡ true)
split_located m to seen h = elim (Bool-cases (eq_location m to)) [
  | inl e ↦ inl (eq_location-true m to e)
  | inr e ↦ inr (ground arith)
]

pub located-new :
    (to : Location) (m : Location) (seen : List Location)
    → m ≡ to
    → (eq_location m to || located m seen) ≡ true
located-new to m seen e = rw e (ground (arith, eq_location_self to))

later :
    (rounds other : ℕ) (al : WordAlignments) (m : Location)
    → Later rounds (suc other) al m
    → Later (suc rounds) other al m
later rounds other al m (e, from_other, to_end, c, same) = (e, omega arith, omega arith, c, same)

missed :
    (to : Location) (seen : List Location) (c : Bool)
    → c ≡ true
    → (c && not (located to seen)) ≡ false
    → located to seen ≡ true
missed to seen c h k = ground arith

pub there :
    (to m : Location) (opened : List Location)
    → located m opened ≡ true
    → located m (to ∷ opened) ≡ true
unfolding located
there to m opened h = ground arith

pub located_here :
    (to m : Location) (opened : List Location) → m ≡ to → located m (to ∷ opened) ≡ true
unfolding located
located_here to m opened e = located-new to m opened e

pub apart :
    (to m : Location) (opened : List Location)
    → located m (to ∷ opened) ≡ true
    → (eq_location m to || located m opened) ≡ true
unfolding located
apart to m opened h = h

visit_passes :
    (rounds other : ℕ) (al : WordAlignments) (opened seen o s : List Location)
    → (is_connection (ask al other) && not (located (aligned_at al other) seen)) ≡ false
    → IsVisited rounds (suc other) al opened seen o s
    → IsVisited (suc rounds) other al opened seen o s
visit_passes rounds other al opened seen o s skips v = record {
  grows = v.grows;
  opens = v.opens;
  seen_opened = v.seen_opened;
  opened_seen = v.opened_seen;
  aligned = λ m h. elim (v.aligned m h) [ inl k ↦ inl k | inr l ↦ inr (later rounds other al m l) ];
  all = λ e p q c. elim (ℕ_discrete other e) [
    | yes same ↦ v.grows (aligned_at al e) (
        subst (λ e. located (aligned_at al e) seen ≡ true) same
          (missed (aligned_at al other) seen _ (ap (λ e. is_connection (ask al e)) same ∙ c) skips))
    | no more ↦ v.all e (omega arith) (omega arith) c
  ];
}

visit_adds :
    (rounds other : ℕ) (al : WordAlignments) (opened seen o s : List Location)
    → is_connection (ask al other) ≡ true
    → IsVisited rounds
        (suc other)
        al
        (aligned_at al other ∷ opened)
        (insert_location (aligned_at al other) seen)
        o
        s
    → IsVisited (suc rounds) other al opened seen o s
visit_adds rounds other al opened seen o s c v =
    let to = aligned_at al other in
    let at = λ (m : Location). located-insert_location m to seen in
    record {
      grows = λ m h. v.grows m (ground (arith, at m));
      opens = λ m h. v.opens m (there to m opened h);
      seen_opened = λ m h. elim (v.seen_opened m h) [
        | inr p ↦ inr p
        | inl k ↦ elim (split_located m to seen (sym (at m) ∙ k)) [
          | inl new ↦ inr (v.opens m (located_here to m opened new))
          | inr old ↦ inl old
        ]
      ];
      opened_seen = λ m h. elim (v.opened_seen m h) [
        | inr p ↦ inr p
        | inl k ↦ elim (split_located m to opened (apart to m opened k)) [
          | inl new ↦ inr (v.grows m (at m ∙ located-new to m seen new))
          | inr old ↦ inl old
        ]
      ];
      aligned = λ m h. elim (v.aligned m h) [
        | inr l ↦ inr (later rounds other al m l)
        | inl k ↦ elim (split_located m to seen (sym (at m) ∙ k)) [
          | inl new ↦ inr (other, omega arith, omega arith, c, new)
          | inr old ↦ inl old
        ]
      ];
      all = λ e p q d. elim (ℕ_discrete other e) [
        | yes same ↦ v.grows (aligned_at al e) (
            at (aligned_at al e)
            ∙ located-new to (aligned_at al e) seen (ap (aligned_at al) (sym same)))
        | no more ↦ v.all e (omega arith) (omega arith) d
      ];
    }

pub visit-IsVisited :
    (rounds other : ℕ) (al : WordAlignments) (opened seen : List Location)
    → IsVisited rounds other al opened seen
        (visit rounds other al opened seen).0
        (visit rounds other al opened seen).1
unfolding visit
visit-IsVisited zero other al opened seen = record {
  grows = λ m h. h;
  opens = λ m h. h;
  seen_opened = λ m h. inl h;
  opened_seen = λ m h. inl h;
  aligned = λ m h. inl h;
  all = λ e p q. absurd (omega arith);
}
visit-IsVisited (suc rounds) other al opened seen =
    let to = aligned_at al other in
    elim (Bool-cases (is_connection (ask al other) && not (located to seen))) [
      | inr skips ↦ rw skips (
          visit_passes rounds other al opened seen _ _ skips
            (visit-IsVisited rounds (suc other) al opened seen))
      | inl goes ↦ rw goes (
          visit_adds rounds other al opened seen _ _ (&&-true goes).0
            (visit-IsVisited rounds (suc other) al (to ∷ opened) (insert_location to seen)))
    ]

-- Each word that a visit opens was unseen.
pub visit-unseen-le :
    (all : List Location) (rounds other : ℕ) (al : WordAlignments) (opened seen : List Location)
    → ((e : ℕ)
        → e < other + rounds
        → is_connection (ask al e) ≡ true
        → located (aligned_at al e) all ≡ true)
    → length (visit rounds other al opened seen).0
        + unseen all (visit rounds other al opened seen).1
      ≤ length opened + unseen all seen
unfolding visit
visit-unseen-le all zero other al opened seen h = omega arith
visit-unseen-le all (suc rounds) other al opened seen h =
    let to = aligned_at al other in
    elim (Bool-cases (is_connection (ask al other) && not (located to seen))) [
      | inr skips ↦
          rw skips
            (visit-unseen-le all rounds (suc other) al opened seen (λ e k. h e (omega arith)))
      | inl goes ↦
          let new =
            unseen-insert to all seen (h other (omega arith) (&&-true goes).0) (ground arith) in
          let rest =
            visit-unseen-le all rounds (suc other) al (to ∷ opened) (insert_location to seen)
              (λ e k. h e (omega arith)) in
          rw goes (omega (arith, new, rest))
    ]
