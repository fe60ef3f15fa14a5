-- ===== src/Prelude.antt =====
-- The names that the other modules share: the libraries' and those of the children.
mod Tests
mod Lists
mod Slices
pub mod Outcome
pub mod Bytes
pub mod Pack
pub mod Assoc
pub mod Int
pub mod Perms
pub use Tests.*
pub use Lists.*
pub use Slices.*
pub use Prim.Native.Nat.{ℕ, zero, suc, ◌+◌, ◌-◌, ◌*◌, ◌/◌, ◌%◌, ◌^◌, ◌≤◌, ◌<◌, min}
pub use mathlib.Core.Path.{◌≡◌, refl, sym, ap, ap₂, subst, ◌∙◌}
pub use mathlib.Core.Logic.{◌≢◌, ◌↔◌, ◌⊎◌, inl, inr}
pub use mathlib.Core.Bool.{Bool, true, false, ◌&&◌, ◌||◌, not}
pub use mathlib.Core.Option.{Option, none, some}
pub use mathlib.Core.List.{List, [], ◌∷◌, ◌++◌, map}
pub use native.Mathlib.Omega.{arith}
