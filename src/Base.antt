-- ===== src/Base.antt =====
-- What every module shares: the libraries' names, passed on, with the Boolean tests, lists, texts
-- and numbers of Go's standard library that the sources call.
mod Tests
mod Lists
mod Text
mod Number
mod Upto
mod Chars
pub use Tests.*
pub use Lists.*
unfoldable pub use Text.*
unfoldable pub use Number.*
pub use Upto.*
pub use Number.Printed.{IsInt64, atoi-show_int, show_int-AllChars}
pub use Chars.*
pub use Prim.Native.Nat.{ℕ, zero, suc, ◌+◌, ◌-◌, ◌*◌, ◌/◌, ◌%◌, ◌^◌, ◌≤◌, ◌<◌}
pub use Prim.Native.Char.{Char, code}
pub use Prim.Native.String.{String, ◌++◌ as ◌<>◌}
pub use mathlib.Core.Path.{◌≡◌, refl, sym, ap, ap₂, ◌∙◌}
pub use mathlib.Core.Logic.{◌≢◌, ◌↔◌, ◌⊎◌, inl, inr}
pub use mathlib.Core.Bool.{Bool, true, false, not, ◌&&◌, ◌||◌}
pub use mathlib.Core.Option.{Option, none, some}
pub use mathlib.Core.List.{List, [], ◌∷◌, ◌++◌, map}
pub use native.Mathlib.Omega.{arith}
pub use text.Mathlib.TextEquality.{eq_iff}
pub use text.Mathlib.TextPositions.{eq_refl}
