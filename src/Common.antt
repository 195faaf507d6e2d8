-- ===== src/Common.antt =====
-- The names that the other modules share: the libraries', passed on, and those of the children.
mod Tests
mod Bits
mod Lists
mod Map
mod InverseMaps
mod Bytes
mod Writes
mod Xor
mod Cuts
mod Options
mod Index
unfoldable pub use Tests.*
unfoldable pub use Bits.*
pub use Lists.*
pub use Bytes.*
pub use Writes.*
pub use Xor.*
pub use Cuts.*
pub use Options.*
unfoldable pub use Index.*
pub use InverseMaps.*
unfoldable pub use Map.*
pub use Prim.Native.Nat.{ℕ, zero, suc, ◌+◌, ◌-◌, ◌*◌, ◌/◌, ◌%◌, ◌^◌, ◌≤◌, ◌<◌}
pub use mathlib.Core.Path.{◌≡◌, refl, sym, ap, ◌∙◌}
pub use mathlib.Core.Logic.{◌≢◌, ◌↔◌, ◌⊎◌, inl, inr}
pub use mathlib.Core.Bool.{Bool, true, false, not, ◌&&◌, ◌||◌}
pub use mathlib.Core.Option.{Option, none, some}
pub use mathlib.Core.List.{List, [], ◌∷◌, ◌++◌, map}
pub use native.Mathlib.Omega.{arith}
