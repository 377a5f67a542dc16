-- ===== src/Prelude.antt =====
-- The names that every module shares: the libraries', passed on, and those of the children below
-- (Boolean tests, lists over the native numbers, dictionaries).
mod Tests
mod Lists
mod Dict
pub mod Members
pub mod Exec
pub mod Floats
pub mod Text
pub mod Paths
pub mod Sorting
pub use Tests.*
pub use Lists.*
unfoldable pub use Dict.{lookup, insert, remove}
pub use Dict.{lookup-insert, lookup-remove}
pub use Prim.Native.Nat.{ℕ, zero, suc, ◌+◌, ◌-◌, ◌*◌, ◌/◌, ◌%◌, ◌^◌, ◌≤◌, ◌<◌, min}
pub use Prim.Native.String.{String}
pub use mathlib.Core.Path.{◌≡◌, refl, sym, ap, ◌∙◌, subst}
pub use mathlib.Core.Logic.{◌≢◌, ◌↔◌, ◌⊎◌, inl, inr}
pub use mathlib.Core.Bool.{Bool, true, false, not, ◌&&◌, ◌||◌}
pub use mathlib.Core.Option.{Option, none, some}
pub use mathlib.Core.List.{List, [], ◌∷◌, ◌++◌, map, append-nil, append_assoc, map-append}
pub use native.Mathlib.Omega.{arith}
pub use text.Mathlib.Text.{◌==◌}
pub use text.Mathlib.TextEquality.{eq_iff}
pub use text.Mathlib.TextPositions.{eq_refl}
