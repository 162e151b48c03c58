-- ===== src/Base.antt =====
-- Shared names and lemmas: the libraries' names passed on, tests on numbers, lists as C arrays,
-- machine words, bits, and byte ranges.
mod Tests
mod Lists
mod Order
mod Slices
mod Word
mod Returns
pub mod Bits
pub use Tests.*
pub use Lists.*
pub use Order.*
pub use Slices.*
pub use Word.*
pub use Returns.*
pub use Prim.Native.Nat.{
  ℕ, zero, suc, ◌+◌, ◌-◌, ◌*◌, ◌/◌, ◌%◌, ◌^◌, ◌≤◌, ◌<◌, min, max, bit_and, bit_or, bit_xor,
}
pub use mathlib.Core.Path.{◌≡◌, refl, sym, ap, ap₂, ◌∙◌, subst, fun_ext}
pub use mathlib.Core.Logic.{◌≢◌, ◌↔◌, ◌⊎◌, inl, inr}
pub use mathlib.Core.Bool.{Bool, true, false, not, ◌&&◌, ◌||◌}
pub use mathlib.Core.Option.{Option, none, some}
pub use mathlib.Core.List.{List, [], ◌∷◌, ◌++◌, map, append-nil, append_assoc, reverse, reverse_aux}
pub use native.Mathlib.Omega.{arith}
