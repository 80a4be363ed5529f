-- ===== src/Base.antt =====
-- What every component uses: library names passed on, Boolean tests, lists over the native
-- numbers, signed integers, Python dictionaries, text as code points, and exact fractions.
mod Tests
mod Lists
mod Options
mod Equality
pub mod Int
pub mod Dict
pub mod Text
pub mod Strings
pub mod Updates
pub mod Decimal
pub mod Fraction
pub use Tests.*
pub use Lists.*
pub use Options.*
pub use Equality.*
pub use Prim.Native.Nat.{ℕ, zero, suc, ◌+◌, ◌-◌, ◌*◌, ◌/◌, ◌%◌, ◌^◌, ◌≤◌, ◌<◌}
pub use Prim.Native.String.{String}
pub use mathlib.Core.Path.{◌≡◌, refl, sym, ap, ◌∙◌}
pub use mathlib.Core.Logic.{◌≢◌, ◌↔◌, ◌⊎◌, inl, inr}
pub use mathlib.Core.Bool.{Bool, true, false, ◌&&◌, ◌||◌, not}
pub use mathlib.Core.Option.{Option, none, some}
pub use mathlib.Core.List.{List, [], ◌∷◌, ◌++◌, map, append-nil, append_assoc}
pub use native.Mathlib.Omega.{arith}
