-- ===== src/Base.antt =====
-- The names that the other modules share: those of the libraries, passed on, machine words,
-- lists under native indices, Boolean tests and the result type of fallible functions.
mod Tests
mod Lists
mod Word
mod Outcome
mod Loops
pub mod Bits
pub use Tests.*
pub use Lists.*
pub use Word.*
pub use Outcome.*
unfoldable pub use Loops.{for_each}
pub use Loops.{for_each_inv}
pub use Prim.Native.Nat.{ℕ, zero, suc, ◌+◌, ◌-◌, ◌*◌, ◌/◌, ◌%◌, ◌^◌, ◌≤◌, ◌<◌}
pub use Prim.Native.Nat.{min, max, bit_and, bit_or, bit_xor}
pub use mathlib.Core.Path.{◌≡◌, refl, sym, ap, ◌∙◌}
pub use mathlib.Core.Logic.{◌≢◌, ◌↔◌, ◌⊎◌, inl, inr}
pub use mathlib.Core.Bool.{Bool, true, false, not, ◌&&◌, ◌||◌}
pub use mathlib.Core.Option.{Option, none, some}
pub use mathlib.Core.List.{List, [], ◌∷◌, ◌++◌, map}
pub use native.Mathlib.Omega.{arith}
