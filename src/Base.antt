-- ===== src/Base.antt =====
-- The names that every part shares: the library's, passed on, and those of the children.
mod Tests
mod Lists
mod Sorted
mod Equality
mod Errors
mod Missing
pub mod Int
pub mod Text
pub mod Json
pub use Tests.*
pub use Lists.*
pub use Sorted.*
unfoldable pub use Equality.*
pub use Errors.*
pub use Missing.*
pub use Prim.Native.Nat.{ℕ, zero, suc, ◌+◌, ◌-◌, ◌*◌, ◌≤◌, ◌<◌}
pub use Prim.Native.String.{String}
pub use mathlib.Core.Path.{◌≡◌, refl, sym, ap, ◌∙◌}
pub use mathlib.Core.Logic.{◌≢◌, ◌↔◌, ◌⊎◌, inl, inr}
pub use mathlib.Core.Bool.{Bool, true, false, ◌&&◌, ◌||◌, not}
pub use mathlib.Core.Option.{Option, none, some}
pub use mathlib.Core.List.{List, [], ◌∷◌, ◌++◌, map}
pub use native.Mathlib.Omega.{arith}
