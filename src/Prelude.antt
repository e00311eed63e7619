-- ===== src/Prelude.antt =====
-- The names that the other modules share: the libraries' ones, passed on, Boolean tests and lists
-- over the native numbers, unsigned 32-bit arithmetic, and the rule sets of the proofs.
mod Tests
mod Lists
mod Words
mod Bits
mod Queues
pub use Tests.*
pub use Lists.*
pub use Words.*
pub use Bits.*
unfoldable pub use Queues.*
pub use Prim.Native.Nat.{ℕ, zero, suc, ◌+◌, ◌-◌, ◌*◌, ◌/◌, ◌%◌, ◌^◌, ◌≤◌, ◌<◌, min, max}
pub use mathlib.Core.Path.{◌≡◌, refl, sym, ap, ap₂, subst, ◌∙◌, fun_ext}
pub use mathlib.Core.Logic.{◌≢◌, ◌↔◌, ◌⊎◌, inl, inr}
pub use mathlib.Core.Bool.{Bool, true, false, not, ◌&&◌, ◌||◌}
pub use mathlib.Core.Option.{Option, none, some}
pub use mathlib.Core.List.{List, [], ◌∷◌, ◌++◌, map, append-nil, append_assoc}
pub use native.Mathlib.Omega.{arith}
