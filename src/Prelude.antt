-- ===== src/Prelude.antt =====
-- The names that all modules share: those of the libraries, passed on, Boolean tests, lists over
-- the native numbers, equality of keys, and tables of rows as SQL statements read and write them.
pub mod Tests
pub mod Lists
pub mod Keys
pub mod Rows
pub mod Ints
pub use Tests.*
pub use Lists.*
unfoldable pub use Keys.{bytes_eq, bytes_leb}
pub use Keys.{bytes_eq_iff, num_eq_iff}
pub use Prim.Native.Nat.{ℕ, zero, suc, ◌+◌, ◌-◌, ◌*◌, ◌/◌, ◌%◌, ◌^◌, ◌≤◌, ◌<◌, max, min}
pub use Prim.Native.String.{String}
pub use mathlib.Core.Path.{◌≡◌, refl, sym, ap, ◌∙◌}
pub use mathlib.Core.Logic.{◌≢◌, ◌↔◌, ◌⊎◌, inl, inr}
pub use mathlib.Core.Bool.{Bool, true, false, ◌&&◌, ◌||◌, not}
pub use mathlib.Core.Option.{Option, none, some}
pub use mathlib.Core.List.{List, [], ◌∷◌, ◌++◌, map}
pub use native.Mathlib.Omega.{arith}
