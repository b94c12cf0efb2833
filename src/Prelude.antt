-- ===== src/Prelude.antt =====
-- Names that every module shares: the library's, passed on, and those of the children.
-- `Result` holds the outcomes of Python code that may raise, `Action` the methods of an object
-- whose attributes survive a raise, `Text` the string methods, `Dict` the built-in `dict`.
mod Tests
pub mod Result
pub mod Action
pub mod Text
pub mod Dict
pub mod Table
pub mod Lists
pub mod Lines
pub mod Json
pub mod Document
pub use Tests.*
pub use Prim.Native.Nat.{ℕ, zero, suc, ◌+◌, ◌-◌, ◌*◌, ◌/◌, ◌%◌, ◌^◌, ◌≤◌, ◌<◌}
pub use Prim.Native.String.{String}
pub use mathlib.Core.Path.{◌≡◌, refl, sym, ap, ◌∙◌}
pub use mathlib.Core.Logic.{◌≢◌, ◌↔◌, ◌⊎◌, inl, inr}
pub use mathlib.Core.Bool.{Bool, true, false, not, ◌&&◌, ◌||◌}
pub use mathlib.Core.Option.{Option, none, some}
pub use mathlib.Core.List.{List, [], ◌∷◌, ◌++◌, map}
pub use native.Mathlib.Omega.{arith}
pub use text.Mathlib.Text.{◌==◌, starts_with}
pub use text.Mathlib.TextEquality.{eq_iff}
pub use text.Mathlib.TextPositions.{eq_refl}
