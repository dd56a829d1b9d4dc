-- ===== src/Prelude.antt =====
-- The names that the other modules share: the libraries', passed on, and those of the children:
-- Boolean tests, lists measured by native numbers, the outcome of a C call, C arrays as lists of
-- cells with checked reads and writes, and size_t arithmetic as helper.h does it.
pub mod Tests
pub mod Lists
pub mod Calls
pub mod Order
pub mod Memory
pub mod SizeT
pub mod Segments
pub mod Growth
pub mod Cells
pub mod Loop
pub use Tests.*
pub use Lists.*
unfoldable pub use Calls.*
unfoldable pub use Memory.*
unfoldable pub use SizeT.*
pub use Segments.*
pub use Growth.*
pub use Cells.*
unfoldable pub use Loop.*
pub use Prim.Native.Nat.{
  ℕ, zero, suc, ◌+◌, ◌-◌, ◌*◌, ◌/◌, ◌%◌, ◌^◌, ◌≤◌, ◌<◌, min, max, pred, bit_and, bit_or,
}
pub use mathlib.Core.Path.{◌≡◌, refl, sym, ap, ap₂, ◌∙◌, subst, ◌≡⟨◌⟩◌, ◌∎}
pub use mathlib.Core.Logic.{◌≢◌, ◌↔◌, ◌⊎◌, inl, inr}
pub use mathlib.Core.Bool.{Bool, true, false, not, ◌&&◌, ◌||◌}
pub use mathlib.Core.Option.{Option, none, some}
pub use mathlib.Core.List.{List, [], ◌∷◌, ◌++◌, map, append-nil, append_assoc}
pub use native.Mathlib.Omega.{arith}
unfoldable pub use native.Mathlib.Decide.{dec_lt, ℕ_discrete}
