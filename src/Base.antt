-- ===== src/Base.antt =====
-- Names that every other file shares: the library's, passed on, and those of its children: Boolean
-- tests, lists measured by native numbers, fixed-width words, bits, byte slices with their panics, and
-- comparison, maps and stores. The module Outcome is used by its name.
mod Tests
mod Lists
mod Words
mod Bytes
mod Equality
mod Maps
mod Stores
pub mod Outcome
mod Bits
pub use Tests.*
pub use Lists.*
pub use Words.*
pub use Bits.*
pub use Bytes.*
unfoldable pub use Equality.*
unfoldable pub use Maps.*
unfoldable pub use Stores.*
pub use Prim.Native.Nat.{
  ℕ, zero, suc, ◌+◌, ◌-◌, ◌*◌, ◌/◌, ◌%◌, ◌^◌, ◌≤◌, ◌<◌, min, max, bit_and, bit_xor,
}
pub use mathlib.Core.Path.{◌≡◌, refl, sym, ap, ap₂, ◌∙◌}
pub use mathlib.Core.Logic.{◌≢◌, ◌↔◌, ◌⊎◌, inl, inr}
pub use mathlib.Core.Bool.{Bool, true, false, not, ◌&&◌, ◌||◌}
pub use mathlib.Core.Option.{Option, none, some}
pub use mathlib.Core.List.{List, [], ◌∷◌, ◌++◌, map, append-nil, append_assoc}
pub use native.Mathlib.Omega.{arith}
