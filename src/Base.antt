-- ===== src/Base.antt =====
-- The names that the other modules share: the libraries', passed on, and those of the children.
mod Tests
mod Lists
mod Equality
mod Text
mod Integers
pub mod Order
pub mod Sort
pub mod Dedup
pub mod Assoc
pub mod Distinct
pub mod Chars
pub mod Panic
pub mod Affix
pub mod DedupBy
pub use Tests.*
pub use Lists.*
unfoldable pub use Text.{from_utf8, is_whitespace, trim_end, trim, decimal}
pub use Text.{length-from_utf8, length-trim_end}
pub use Equality.{
  Eq, ◌==◌, nat_eq, string_eq, decides, decides_iff, eq_of_discrete, contains, contains_iff,
}
pub use Prim.Native.Nat.{ℕ, zero, suc, ◌+◌, ◌-◌, ◌*◌, ◌/◌, ◌%◌, ◌^◌, ◌≤◌, ◌<◌}
pub use Prim.Native.String.{String}
pub use mathlib.Core.Path.{◌≡◌, refl, sym, ap, ◌∙◌}
pub use mathlib.Core.Logic.{◌≢◌, ◌↔◌, ◌⊎◌, inl, inr, ⊎_elim}
pub use mathlib.Core.Bool.{Bool, true, false, not, ◌&&◌, ◌||◌}
pub use mathlib.Core.Option.{Option, none, some}
pub use mathlib.Core.List.{List, [], ◌∷◌, ◌++◌, map, Memᴰ}
pub use native.Mathlib.Omega.{arith}
unfoldable pub use native.Mathlib.Decide.{ℕ_discrete}
unfoldable pub use Equality.{string_discrete}
pub use Integers.*
