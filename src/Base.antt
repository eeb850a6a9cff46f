-- ===== src/Base.antt =====
-- Names that every module shares: those of the libraries, passed on, and those of the children.
pub mod Tests
pub mod Lists
pub mod Query
pub mod Answers
pub mod Keyed
pub mod Outcome
pub mod Text
pub mod Order
pub mod Json
pub mod Rows
pub use Tests.*
pub use Lists.*
unfoldable pub use Query.*
pub use Answers.*
unfoldable pub use Keyed.*
pub use Outcome.*
unfoldable pub use Text.*
unfoldable pub use Order.*
unfoldable pub use Json.*
pub use Rows.*
pub use Prim.Native.Nat.{ℕ, zero, suc, ◌+◌, ◌-◌, ◌*◌, ◌/◌, ◌≤◌, ◌<◌, min, max}
pub use Prim.Native.String.{String}
pub use mathlib.Core.Path.{◌≡◌, refl, sym, ap, ◌∙◌}
pub use mathlib.Core.Logic.{◌≢◌, ◌↔◌, ◌⊎◌, inl, inr}
pub use mathlib.Core.Bool.{Bool, true, false, not, ◌&&◌, ◌||◌}
pub use mathlib.Core.Option.{Option, none, some, some-injective}
pub use mathlib.Core.List.{List, [], ◌∷◌, ◌++◌, map}
pub use native.Mathlib.Omega.{arith}
pub use text.Mathlib.Text.{◌==◌ as str_eq}
pub use text.Mathlib.TextEquality.{eq_iff}
pub use text.Mathlib.TextPositions.{eq_refl}
