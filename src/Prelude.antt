-- ===== src/Prelude.antt =====
-- The names that the other modules share: the libraries' own, passed on, and the helpers of nine
-- children (tests and equality, lists, sets, dictionaries, grouping, tallies, counting, sorting, text).
mod Tests
mod Lists
mod Dicts
mod Sorting
mod Tally
mod Grouping
mod Sets
mod Counting
mod Text
pub mod Int
pub use Tests.*
unfoldable pub use Lists.*
pub use Dicts.*
pub use Text.*
pub use Sets.*
pub use Counting.*
unfoldable pub use Grouping.*
unfoldable pub use Tally.*
unfoldable pub use Sorting.*
pub use Prim.Native.Nat.{ℕ, zero, suc, ◌+◌, ◌-◌, ◌*◌, ◌/◌, ◌%◌, ◌≤◌, ◌<◌}
pub use Prim.Native.String.{String}
pub use mathlib.Core.Path.{◌≡◌, refl, sym, ap, ◌∙◌}
pub use mathlib.Core.Logic.{◌≢◌, ◌↔◌, ◌⊎◌, inl, inr}
pub use mathlib.Core.Bool.{Bool, true, false, not, ◌&&◌, ◌||◌}
pub use mathlib.Core.Option.{Option, none, some}
pub use mathlib.Core.List.{List, [], ◌∷◌, ◌++◌, map, Memᴰ}
pub use native.Mathlib.Omega.{arith}
