-- ===== src/Base.antt =====
-- What the other modules share: the libraries' names passed on, tests and lists over the native
-- numbers, signed integers, dictionaries and the decimal print of numbers.
pub mod Tests
pub mod Lists
pub mod Int
pub mod Dict
pub mod Show
pub mod Text
pub mod Chars
pub mod Strip
pub mod Parse
pub mod Lines
pub mod Matching
pub mod Search
pub mod Env
pub mod Cut
pub mod CommaList
pub mod Sorted
pub mod Calendar
pub mod Bind
pub use Tests.*
pub use Lists.*
pub use Prim.Native.Nat.{ℕ, zero, suc, ◌+◌, ◌-◌, ◌*◌, ◌/◌, ◌%◌, ◌≤◌, ◌<◌}
pub use Prim.Native.String.{String, ◌++◌ as ◌<>◌}
pub use mathlib.Core.Path.{◌≡◌, refl, sym, ap, subst, ◌∙◌}
pub use mathlib.Core.Logic.{◌≢◌, ◌↔◌, ◌⊎◌, inl, inr}
pub use mathlib.Core.Bool.{Bool, true, false, not, ◌&&◌, ◌||◌}
pub use mathlib.Core.Option.{Option, none, some}
pub use mathlib.Core.List.{List, [], ◌∷◌, ◌++◌, map}
pub use native.Mathlib.Omega.{arith}
pub use text.Mathlib.Text.{◌==◌ as ◌=s=◌}
pub use text.Mathlib.TextEquality.{eq_iff}
pub use text.Mathlib.TextPositions.{eq_refl}
