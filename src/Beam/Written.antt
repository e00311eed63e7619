-- ===== src/Beam/Written.antt =====
-- A beam whose available slot has a new value: Available() as a caller writes it.
use native.Mathlib.Decide.{dec_lt}
use memt.Prelude.{
  ℕ, ◌<◌, ◌≡◌, ◌∙◌, refl, true, false, ◌==◌, if◌then◌else◌, set, length, arith, length-set,
  get_or-set, ==_self,
}
use memt.Beam.{Beam, in_use, value}
use memt.Beam.Sound.{IsSound}

abbrev pub written {ℓ} : {A : Type ℓ} → A → Beam A → Beam A
written a b = record b {
  storage = record b.storage { owner = set b.storage.owner b.storage.available a };
}

module _ {ℓ} {A : Type ℓ} (blank a : A) (b : Beam A) (v : IsSound b) where
  pub spare : b.storage.available < length b.storage.owner
  spare = elim (dec_lt b.storage.size b.storage.max_size) [
    | yes h ↦ omega (arith, (v.filling h).0, v.sized)
    | no h ↦ let f = (v.full (omega (arith, v.room))).1 in omega (arith, f.spare, v.sized)
  ]

  pub written-IsSound : IsSound (written a b)
  written-IsSound = record {
    sized = length-set b.storage.owner b.storage.available a ∙ v.sized;
    room = v.room;
    filling = v.filling;
    full = λ e.
        let f = (v.full e).1 in
        ((v.full e).0, record { spare = f.spare; once = f.once; many = f.many; has = f.has });
  }

  at :
      (i : ℕ)
      → value blank (written a b).storage.owner i
        ≡ (if b.storage.available == i then a else value blank b.storage.owner i)
  at i = get_or-set b.storage.owner b.storage.available i a blank spare

  pub at_new : value blank (written a b).storage.owner b.storage.available ≡ a
  at_new = rw (at b.storage.available, ==_self b.storage.available) refl

  pub at_old :
      (i : ℕ)
      → in_use b.storage i ≡ true
      → value blank (written a b).storage.owner i ≡ value blank b.storage.owner i
  at_old i u =
      let other : (b.storage.available == i) ≡ false = ground arith in rw (at i, other) refl
