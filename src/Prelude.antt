-- ===== src/Prelude.antt =====
-- Names that the other modules share: the libraries', passed on, with Boolean tests, list
-- functions over the native numbers, and equality as an interface.
mod Tests
mod Lists
mod Parts
mod Keys
mod Ids
mod Ints
mod Rows
pub use Tests.*
pub use Lists.*
pub use Parts.*
pub use Ids.*
pub use Ints.*
pub use Rows.*
pub use Keys.*
pub use Prim.Native.Nat.{ℕ, zero, suc, ◌+◌, ◌-◌, ◌*◌, ◌/◌, ◌%◌, ◌^◌, ◌≤◌, ◌<◌, min}
pub use Prim.Native.String.{String}
pub use mathlib.Core.Path.{◌≡◌, refl, sym, ap, ◌∙◌, subst}
pub use mathlib.Core.Logic.{◌≢◌, ◌↔◌, ◌⊎◌, inl, inr}
pub use mathlib.Core.Bool.{Bool, true, false, not, ◌&&◌, ◌||◌}
pub use mathlib.Core.Option.{Option, none, some}
pub use mathlib.Core.List.{List, [], ◌∷◌, ◌++◌, map, append-nil, append_assoc}
pub use native.Mathlib.Omega.{arith}
