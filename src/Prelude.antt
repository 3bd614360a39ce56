-- ===== src/Prelude.antt =====
-- The names that the other modules share: the libraries', passed on, and those of the children.
mod Tests
mod Equality
mod Fallible
mod Lists
mod Texts
mod Maps
pub use Tests.*
pub use Equality.*
unfoldable pub use Equality.{list_beq}
pub use Fallible.*
pub use Lists.*
unfoldable pub use Lists.{filter, any, all}
pub use Texts.*
unfoldable pub use Texts.{starts_with, find, split, is_space, trim_start, trim}
pub use Maps.*
unfoldable pub use Maps.{get, set, delete, keys, add, remove, to_set}
pub use Prim.Native.Nat.{ℕ, zero, suc, ◌+◌, ◌-◌, ◌*◌, ◌/◌, ◌%◌, ◌^◌, ◌≤◌, ◌<◌}
pub use Prim.Native.Nat.{compare, Ordering, max, min}
pub use mathlib.Core.Path.{◌≡◌, refl, sym, ap, subst, ◌∙◌}
pub use mathlib.Core.Logic.{ite, ◌≢◌, ◌↔◌, ◌⊎◌, inl, inr}
pub use mathlib.Core.Bool.{Bool, true, false, not, ◌&&◌, ◌||◌}
pub use mathlib.Core.Option.{Option, none, some}
pub use mathlib.Core.List.{List, [], ◌∷◌, ◌++◌, map}
pub use native.Mathlib.Omega.{arith}
unfoldable pub use native.Mathlib.Decide.{ℕ_discrete}
