-- ===== src/Base.antt =====
-- Names that every module shares: the libraries', passed on, and those of the children. The
-- children stand for what the Go code takes from its language and standard library: comparisons
-- of integers, slices, maps, ASCII text and 64-bit words.
mod Tests
mod Lists
mod Bytes
mod Dict
mod Ints
mod Sets
mod Picks
pub use Tests.*
pub use Lists.*
unfoldable pub use Bytes.*
unfoldable pub use Sets.*
unfoldable pub use Picks.*
unfoldable pub use Ints.*
unfoldable pub use Dict.*
pub use Prim.Native.Nat.{ℕ, zero, suc, ◌+◌, ◌-◌, ◌*◌, ◌/◌, ◌%◌, ◌^◌, ◌≤◌, ◌<◌, min, max}
pub use mathlib.Core.Path.{◌≡◌, refl, sym, ap, subst, ◌∙◌}
pub use mathlib.Core.Logic.{◌≢◌, ◌↔◌, ◌⊎◌, inl, inr}
pub use mathlib.Core.Bool.{Bool, true, false, not, ◌&&◌, ◌||◌}
pub use mathlib.Core.Option.{Option, none, some}
pub use mathlib.Core.List.{List, [], ◌∷◌, ◌++◌, map}
pub use native.Mathlib.Omega.{arith}
