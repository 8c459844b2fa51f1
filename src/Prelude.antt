-- ===== src/Prelude.antt =====
-- The names that the modules share: those of the libraries, passed on, Boolean tests, lists under
-- native numbers, orders with their laws, and big-endian integers.
mod Tests
mod Lists
mod Order
mod Results
pub mod Map
pub mod Attempt
mod Prefix
pub mod Bytes
pub use Tests.*
pub use Lists.*
pub use Order.*
pub use Results.*
pub use Prefix.*
pub use Prim.Native.Nat.{ℕ, zero, suc, ◌+◌, ◌-◌, ◌*◌, ◌/◌, ◌%◌, ◌^◌, ◌≤◌, ◌<◌, min, max}
pub use Prim.Native.Nat.{compare, Ordering}
pub use Prim.Native.Nat.Ordering.{lt, eq, gt}
pub use mathlib.Core.Path.{◌≡◌, refl, sym, ap, subst, ◌∙◌}
pub use mathlib.Core.Logic.{◌≢◌, ◌↔◌, ◌⊎◌, inl, inr}
pub use mathlib.Core.Bool.{Bool, true, false, not, ◌&&◌, ◌||◌}
pub use mathlib.Core.Option.{Option, none, some}
pub use mathlib.Core.List.{List, [], ◌∷◌, ◌++◌, map, append_assoc, append-nil}
pub use native.Mathlib.Omega.{arith}
