-- ===== src/Base.antt =====
-- The names that every part of the development shares: those of the libraries, passed on, and the
-- tests, lists, maps, results and byte strings of the modules below.
mod Tests
mod Lists
mod Equality
pub mod Members
pub mod Sets
pub mod Map
pub mod Counts
pub mod Every
pub mod Bytes
pub mod Sort
pub mod Result
pub mod Double
unfoldable pub use Tests.*
unfoldable pub use Lists.*
pub use Equality.*
pub use Prim.Native.Nat.{ℕ, zero, suc, ◌+◌, ◌-◌, ◌*◌, ◌/◌, ◌%◌, ◌^◌, ◌≤◌, ◌<◌, min}
pub use Prim.Native.String.{String}
pub use mathlib.Core.Path.{◌≡◌, refl, sym, ap, ◌∙◌}
pub use mathlib.Core.Logic.{◌≢◌, ◌↔◌, ◌⊎◌, inl, inr}
pub use mathlib.Core.Bool.{Bool, true, false, ◌&&◌, ◌||◌, not}
pub use mathlib.Core.Option.{Option, none, some}
pub use mathlib.Core.List.{List, [], ◌∷◌, ◌++◌, map}
pub use native.Mathlib.Omega.{arith}
