-- ===== src/Prelude.antt =====
-- The names that all modules share: the libraries', passed on, and those of the children, which
-- hold tests on numbers, lists over the native numbers, machine words and bit masks.
mod Tests
mod Lists
mod Words
mod Bits
mod Results
mod Texts
mod Maps
pub use Tests.*
pub use Lists.*
pub use Words.*
pub use Bits.*
pub use Results.*
pub use Texts.*
pub use Maps.*
pub use Prim.Native.Nat.{
  ℕ, zero, suc, ◌+◌, ◌-◌, ◌*◌, ◌/◌, ◌%◌, ◌^◌, ◌≤◌, ◌<◌, min, max, bit_and, bit_or,
}
pub use mathlib.Core.Path.{◌≡◌, refl, sym, ap, ◌∙◌}
pub use mathlib.Core.Logic.{◌≢◌, ◌↔◌, ◌⊎◌, inl, inr}
pub use mathlib.Core.Bool.{Bool, true, false, not, ◌&&◌, ◌||◌}
pub use mathlib.Core.Option.{Option, none, some}
pub use mathlib.Core.List.{List, [], ◌∷◌, ◌++◌, map}
pub use native.Mathlib.Omega.{arith}
