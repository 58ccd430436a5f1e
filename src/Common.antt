-- ===== src/Common.antt =====
-- What every part shares: native numbers, tests and branches, equality of keys, lists, outcomes of
-- fallible code, texts as their bytes, and JSON values. No file of the program is modelled here.
mod Tests
mod Equality
mod Lists
mod Outcome
mod Texts
mod Maps
pub mod Json
pub mod Int
pub mod Indexed
pub mod Sorting
pub mod Tables
pub use Tests.*
unfoldable pub use Equality.*
unfoldable pub use Lists.*
pub use Outcome.*
unfoldable pub use Texts.*
unfoldable pub use Maps.*
pub use Prim.Native.Nat.{ℕ, zero, suc, ◌+◌, ◌-◌, ◌*◌, ◌/◌, ◌%◌, ◌^◌, ◌≤◌, ◌<◌, min, max}
pub use mathlib.Core.Path.{◌≡◌, refl, sym, ap, ◌∙◌, subst}
pub use mathlib.Core.Logic.{◌≢◌, ◌↔◌, ◌⊎◌, inl, inr}
pub use mathlib.Core.Bool.{Bool, true, false, not, ◌&&◌, ◌||◌}
pub use mathlib.Core.Option.{Option, none, some}
pub use mathlib.Core.List.{List, [], ◌∷◌, ◌++◌, map, Memᴰ}
pub use native.Mathlib.Omega.{arith}
