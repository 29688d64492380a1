-- ===== src/Base.antt =====
-- What the modules share: library names passed on, Boolean tests, lists, texts.
mod Tests
pub mod Lists
pub mod Sublists
pub mod Text
pub use Tests.*
pub use Lists.{length, take, elem, All, keep, any_of, length-append, length-take}
pub use Sublists.*
unfoldable pub use Lists.{insert_sorted, sort_by}
pub use Prim.Native.Nat.{ℕ, zero, suc, ◌+◌, ◌-◌, ◌*◌, ◌%◌, ◌^◌, ◌≤◌, ◌<◌, min, max}
pub use Prim.Native.String.{String}
pub use mathlib.Core.Path.{◌≡◌, refl, sym, ap, ◌∙◌, subst}
pub use mathlib.Core.Logic.{◌≢◌, ◌↔◌, ◌⊎◌, inl, inr}
pub use mathlib.Core.Bool.{Bool, true, false, not, ◌&&◌, ◌||◌}
pub use mathlib.Core.Option.{Option, none, some}
pub use mathlib.Core.List.{List, [], ◌∷◌, ◌++◌, map}
pub use native.Mathlib.Omega.{arith}
pub use text.Mathlib.TextEquality.{eq_iff}
