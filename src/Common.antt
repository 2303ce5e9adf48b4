-- ===== src/Common.antt =====
-- The names that every module shares: the libraries', passed on, and those of the children.
mod Tests
mod Lists
mod Text
mod Words
mod Maps
mod Sort
mod Chars
mod Unique
mod First
mod Parts
mod Decimals
pub use Tests.*
pub use Lists.*
unfoldable pub use Text.*
pub use Words.*
unfoldable pub use Maps.*
unfoldable pub use Sort.*
unfoldable pub use Chars.*
pub use Unique.*
pub use First.*
unfoldable pub use Parts.*
pub use Decimals.*
pub use Prim.Native.Nat.{
  ℕ, zero, suc, ◌+◌, ◌-◌, ◌*◌, ◌/◌, ◌%◌, ◌^◌, ◌≤◌, ◌<◌, min, max, compare, Ordering,
}
pub use Prim.Native.String.{String}
pub use mathlib.Core.Path.{◌≡◌, refl, sym, ap, ◌∙◌, subst}
pub use mathlib.Core.Logic.{◌≢◌, ◌↔◌, ◌⊎◌, inl, inr}
pub use mathlib.Core.Bool.{Bool, true, false, not, ◌&&◌, ◌||◌}
pub use mathlib.Core.Option.{Option, none, some}
pub use mathlib.Core.List.{List, [], ◌∷◌, ◌++◌, map}
pub use native.Mathlib.Omega.{arith}
