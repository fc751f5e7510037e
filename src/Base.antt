-- ===== src/Base.antt =====
-- The names that the other modules share: those of the libraries, and those of the children.
mod Tests
mod Lists
mod Strings
mod Signed
mod Split
mod Sorting
mod Substring
mod Assoc
mod Rows
mod Dates
mod Trimming
mod Membership
mod Results
mod Decimal
pub use Tests.*
unfoldable pub use Lists.*
pub use Signed.*
unfoldable pub use Strings.*
unfoldable pub use Split.*
unfoldable pub use Sorting.*
pub use Substring.*
unfoldable pub use Assoc.*
unfoldable pub use Rows.*
unfoldable pub use Dates.*
pub use Trimming.*
pub use Membership.*
unfoldable pub use Decimal.*
pub use Results.*
pub use Prim.Native.Nat.{ℕ, zero, suc, ◌+◌, ◌-◌, ◌*◌, ◌/◌, ◌%◌, ◌^◌, ◌≤◌, ◌<◌}
pub use mathlib.Core.Path.{◌≡◌, refl, sym, ap, ◌∙◌, subst}
pub use mathlib.Core.Logic.{◌≢◌, ◌↔◌, ◌⊎◌, inl, inr}
pub use mathlib.Core.Bool.{Bool, true, false, not, ◌&&◌, ◌||◌}
pub use mathlib.Core.Option.{Option, none, some}
pub use mathlib.Core.List.{List, [], ◌∷◌, ◌++◌, map}
pub use native.Mathlib.Omega.{arith}
