-- ===== src/Base.antt =====
-- The names that the other modules share: the libraries', passed on, and those of the children.
pub mod Tests
pub mod Lists
pub mod Perms
pub mod Int
pub mod Bytes
pub mod Maps
pub mod Double
pub use Tests.*
pub use Lists.*
pub use Perms.*
pub use Int.*
unfoldable pub use Int.{◌+ℤ◌, ◌-ℤ◌, wrap32, wrap64}
pub use Bytes.*
pub use Maps.*
unfoldable pub use Maps.{find_key, put_key, erase_key}
pub use Double.*
unfoldable pub use Bytes.{lower_byte, to_lower, decimal, to_string}
pub use Prim.Native.Nat.{ℕ, zero, suc, ◌+◌, ◌-◌, ◌*◌, ◌/◌, ◌%◌, ◌^◌, ◌≤◌, ◌<◌, min, max}
pub use mathlib.Core.Path.{◌≡◌, refl, sym, ap, ◌∙◌}
pub use mathlib.Core.Logic.{◌≢◌, ◌↔◌, ◌⊎◌, inl, inr}
pub use mathlib.Core.Bool.{Bool, true, false, not, ◌&&◌, ◌||◌}
pub use mathlib.Core.Option.{Option, none, some}
pub use mathlib.Core.List.{List, [], ◌∷◌, ◌++◌, map}
pub use native.Mathlib.Omega.{arith}
