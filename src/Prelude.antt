-- ===== src/Prelude.antt =====
-- The names that the other modules share: the libraries', passed on, and those of four children.
mod Tests
mod Lists
mod Text
mod Outcome
mod Integer
pub use Tests.*
pub use Lists.*
unfoldable pub use Text.*
pub use text.Mathlib.Text.{◌==◌ as text_eq, is_lt}
pub use Outcome.*
pub use Integer.*
pub use Prim.Native.Nat.{ℕ, zero, suc, ◌+◌, ◌-◌, ◌*◌, ◌^◌, ◌≤◌, ◌<◌, max}
pub use Prim.Native.String.{String, compare as text_compare}
pub use mathlib.Core.Path.{◌≡◌, refl, sym, ap, ap₂, ◌∙◌}
pub use mathlib.Core.Logic.{◌≢◌, ◌↔◌, ◌⊎◌, inl, inr}
pub use mathlib.Core.Bool.{Bool, true, false, not, ◌&&◌, ◌||◌}
pub use mathlib.Core.Option.{Option, none, some}
pub use mathlib.Core.List.{List, [], ◌∷◌, ◌++◌, map}
pub use native.Mathlib.Omega.{arith}
pub use text.Mathlib.TextEquality.{eq_iff}
pub use text.Mathlib.TextPositions.{eq_refl}
