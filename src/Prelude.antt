-- ===== src/Prelude.antt =====
-- The names that the other modules share: the libraries' names passed on, tests on numbers, lists
-- measured by native numbers, keys with a decidable equality, and Go maps.
mod Tests
mod Lists
mod Keys
mod Maps
mod Int
mod Text
pub mod Scan
mod Sets
pub mod Sort
pub mod Every
pub mod TextOrder
pub mod Results
pub use Tests.{
  ltb, leb, if◌then◌else◌, ltb→lt, lt→ltb, leb→le, ==_iff, tests, Bool-cases, Option-cases,
}
pub use Lists.*
pub use Keys.*
pub use Int.*
pub use Text.{TextOps}
unfoldable pub use Text.{contains}
unfoldable pub use Sets.{has, dedupe_onto}
pub use Sets.{
  AllDifferent, has-append, AllDifferent-snoc, has-perm, AllDifferent-perm,
  dedupe_onto-AllDifferent, has-dedupe_onto,
}
unfoldable pub use Maps.{lookup, insert, delete, keep}
pub use Maps.{
  Assoc, is_some, lookup-insert, lookup-delete, length-insert, length-delete-le, length-delete_hit,
  Distinct, insert-Distinct, delete-Distinct, only, lookup-keep, keep-Distinct,
}
pub use Prim.Native.Nat.{ℕ, zero, suc, ◌+◌, ◌-◌, ◌*◌, ◌/◌, ◌%◌, ◌^◌, ◌≤◌, ◌<◌, min}
pub use Prim.Native.String.{String}
pub use mathlib.Core.Path.{◌≡◌, refl, sym, ap, ◌∙◌, subst}
pub use mathlib.Core.Logic.{◌≢◌, ◌↔◌, ◌⊎◌, inl, inr}
pub use mathlib.Core.Bool.{Bool, true, false, ◌&&◌, ◌||◌, not}
pub use mathlib.Core.Option.{Option, none, some}
pub use mathlib.Core.List.{List, [], ◌∷◌, ◌++◌, map}
pub use native.Mathlib.Omega.{arith}
