-- ===== src/Common.antt =====
-- The names that all parts share: the libraries' own, passed on, and those of four children
-- (tests on numbers, arrays, machine words, code that may panic). `Common.Bits` holds the laws of `&`, `|` and `^`.
mod Tests
mod Lists
mod Words
mod Panic
pub mod Bits
pub use Tests.*
pub use Lists.*
pub use Words.*
pub use Panic.{Outcome, ok, panic, ◌>>=◌, ◌>>◌, assert, expect}
pub use Prim.Native.Nat.{ℕ, zero, suc, ◌+◌, ◌-◌, ◌*◌, ◌/◌, ◌%◌, ◌^◌, ◌≤◌, ◌<◌, min, max}
pub use Prim.Native.Nat.{bit_and, bit_or, bit_xor}
pub use mathlib.Core.Path.{◌≡◌, refl, sym, ap, ap₂, ◌∙◌, subst, fun_ext}
pub use mathlib.Core.Logic.{◌≢◌, ◌↔◌, ◌⊎◌, inl, inr}
pub use mathlib.Core.Bool.{Bool, true, false, not, ◌&&◌, ◌||◌}
pub use mathlib.Core.Option.{Option, none, some}
pub use mathlib.Core.List.{List, [], ◌∷◌, ◌++◌, map}
pub use native.Mathlib.Omega.{arith}
