-- ===== src/Prelude.antt =====
-- What every module of this library shares: the libraries' names, passed on, Boolean tests, 64-bit
-- words, lists, maps with integer keys, and the result of Go code that may panic.
mod Tests
mod Words
mod Lists
mod Maps
mod Outcomes
pub use Tests.*
pub use Words.*
pub use Lists.*
pub use Maps.*
unfoldable pub use Outcomes.*
pub use Prim.Native.Nat.{ℕ, zero, suc, ◌+◌, ◌-◌, ◌*◌, ◌/◌, ◌%◌, ◌^◌, ◌≤◌, ◌<◌}
pub use mathlib.Core.Path.{◌≡◌, refl, sym, ap, ◌∙◌, subst}
pub use mathlib.Core.Logic.{◌≢◌, ◌↔◌, ◌⊎◌, inl, inr}
pub use mathlib.Core.Bool.{Bool, true, false, not, ◌&&◌, ◌||◌}
pub use mathlib.Core.Option.{Option, none, some}
pub use mathlib.Core.List.{List, [], ◌∷◌, ◌++◌, map, append_assoc, append-nil}
pub use native.Mathlib.Omega.{arith}
