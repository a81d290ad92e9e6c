-- ===== src/Base.antt =====
-- The names that every part shares: the libraries' names passed on, Boolean tests on the native
-- numbers, lists measured by them, byte strings, outcomes of fallible code, and bits.
mod Test
mod Lists
mod Outcome
mod Strings
mod Decimal
mod Cursor
pub mod Bits
pub use Test.*
pub use Lists.*
pub use Outcome.*
unfoldable pub use Strings.*
unfoldable pub use Decimal.*
unfoldable pub use Cursor.*
pub use Prim.Native.Nat.{
  ℕ, zero, suc, ◌+◌, ◌-◌, ◌*◌, ◌/◌, ◌%◌, ◌^◌, ◌≤◌, ◌<◌, min, bit_and, bit_or, bit_xor, pred,
}
pub use mathlib.Core.Path.{◌≡◌, refl, sym, ap, ap₂, subst, ◌∙◌}
pub use mathlib.Core.Logic.{◌≢◌, ◌↔◌, ◌⊎◌, inl, inr}
pub use mathlib.Core.Bool.{Bool, true, false, not, ◌&&◌, ◌||◌}
pub use mathlib.Core.Option.{Option, none, some}
pub use mathlib.Core.List.{List, [], ◌∷◌, ◌++◌, map, append_assoc, append-nil}
pub use native.Mathlib.Omega.{arith}
