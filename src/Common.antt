-- ===== src/Common.antt =====
-- Names that the modules of every part share: the libraries', passed on, and those of the
-- children (tests on numbers, lists, machine words, signed counters, updates of a map).
mod Tests
mod Lists
mod Words
mod Maps
mod Texts
mod Ints
pub mod Bits
pub use Tests.*
pub use Lists.*
pub use Maps.*
pub use Texts.*
pub use Ints.*
pub use Words.*
pub use Prim.Native.Nat.{ℕ, zero, suc, ◌+◌, ◌-◌, ◌*◌, ◌/◌, ◌%◌, ◌^◌, ◌≤◌, ◌<◌}
pub use mathlib.Core.Path.{◌≡◌, refl, sym, ap, ap₂, ◌∙◌}
pub use mathlib.Core.Logic.{◌≢◌, ◌↔◌, ◌⊎◌, inl, inr}
pub use mathlib.Core.Bool.{Bool, true, false, not, ◌&&◌, ◌||◌}
pub use mathlib.Core.Option.{Option, none, some}
pub use mathlib.Core.List.{List, [], ◌∷◌, ◌++◌, map, append_assoc, append-nil}
pub use native.Mathlib.Omega.{arith}
pub use native.Mathlib.Decide.{dec_lt, dec_le, ℕ_discrete}
