-- ===== src/Base.antt =====
-- The names that the other modules share: those of the libraries, passed on, and the helpers of the
-- children below. Go's `string`, `[]byte` and `json.RawMessage` are byte sequences, `Text`.
mod Tests
mod Texts
mod Lists
mod Results
mod Decimal
mod Integers
mod Hex
mod Sorting
pub mod Table
pub mod Deletions
pub use Tests.*
unfoldable pub use Texts.*
pub use Lists.*
pub use Results.*
pub use Integers.*
unfoldable pub use Decimal.*
unfoldable pub use Hex.*
unfoldable pub use Sorting.*
pub use Prim.Native.Nat.{ℕ, zero, suc, ◌+◌, ◌-◌, ◌*◌, ◌/◌, ◌%◌, ◌^◌, ◌≤◌, ◌<◌, min, max}
pub use mathlib.Core.Path.{◌≡◌, refl, sym, ap, subst, ◌∙◌}
pub use mathlib.Core.Logic.{◌≢◌, ◌↔◌, ◌⊎◌, inl, inr}
pub use mathlib.Core.Bool.{Bool, true, false, not, ◌&&◌, ◌||◌}
pub use mathlib.Core.Option.{Option, none, some}
pub use mathlib.Core.List.{List, [], ◌∷◌, ◌++◌, map}
pub use native.Mathlib.Omega.{arith}
