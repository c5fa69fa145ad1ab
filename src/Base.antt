-- ===== src/Base.antt =====
-- Shared helpers: the library's names passed on, and the children's tests, lists, texts and maps.
mod Tests
mod Lists
mod Words
mod Maps
pub mod All
mod Decimal
mod Sort
mod Fold
pub mod Ints
pub mod Sorted
pub use Tests.*
pub use Lists.*
unfoldable pub use Words.*
unfoldable pub use Decimal.*
unfoldable pub use Maps.*
unfoldable pub use Sort.*
unfoldable pub use Fold.*
pub use Prim.Native.Nat.{ℕ, zero, suc, ◌+◌, ◌-◌, ◌*◌, ◌/◌, ◌%◌, ◌^◌, ◌≤◌, ◌<◌}
pub use mathlib.Core.Path.{◌≡◌, refl, sym, ap, ap₂, ◌∙◌, subst, ◌≡⟨◌⟩◌, ◌∎}
pub use mathlib.Core.Logic.{◌≢◌, ◌↔◌, ◌⊎◌, inl, inr}
pub use mathlib.Core.Bool.{Bool, true, false, not, ◌&&◌, ◌||◌}
pub use mathlib.Core.Option.{Option, none, some}
pub use mathlib.Core.List.{List, [], ◌∷◌, ◌++◌, map, reverse}
pub use native.Mathlib.Omega.{arith}
