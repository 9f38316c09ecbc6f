-- ===== src/Base.antt =====
-- Names and helpers shared by the models of AuthKit's components: the library names in use, Boolean
-- tests, lists over the native numbers, signed numbers, byte strings, the hash map, and the two
-- ways in which Rust code ends other than by a plain value (`Result` and a panic).
mod Tests
mod Lists
mod Text
pub mod Int
pub mod Map
pub mod Outcome
pub mod Str
pub mod Bits
pub mod Words
pub mod Panic
pub mod Utf8
pub mod Find
pub mod Json
pub use Tests.*
pub use Lists.*
unfoldable pub use Text.*
pub use Prim.Native.Nat.{ℕ, zero, suc, ◌+◌, ◌-◌, ◌*◌, ◌/◌, ◌%◌, ◌^◌, ◌≤◌, ◌<◌}
pub use Prim.Native.Nat.{bit_and, bit_or, bit_xor}
pub use Prim.Native.String.{String}
pub use mathlib.Core.Path.{◌≡◌, refl, sym, ap, ◌∙◌, subst}
pub use mathlib.Core.Logic.{◌≢◌, ◌↔◌, ◌⊎◌, inl, inr}
pub use mathlib.Core.Bool.{Bool, true, false, not, ◌&&◌, ◌||◌}
pub use mathlib.Core.Option.{Option, none, some}
pub use mathlib.Core.List.{List, [], ◌∷◌, ◌++◌, map, append_assoc, append-nil}
pub use native.Mathlib.Omega.{arith}
