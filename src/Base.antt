-- ===== src/Base.antt =====
-- The names that the other modules share: the libraries', passed on, and those of the children.
mod Tests
mod Lists
mod Word
mod Errors
mod Keys
mod Sort
mod Int
pub use Tests.*
pub use Lists.*
unfoldable pub use Lists.{rev_onto}
pub use Word.*
pub use Int.*
unfoldable pub use Int.{◌+ℤ◌, ◌-ℤ◌}
pub use Sort.{sum_by-sort, All-sort, IsSorted, sort-IsSorted}
unfoldable pub use Sort.{sort}
pub use Keys.*
unfoldable pub use Keys.{update, contains}
pub use Errors.*
unfoldable pub use Word.{add64, sub64}
pub use Prim.Native.Nat.{ℕ, zero, suc, ◌+◌, ◌-◌, ◌*◌, ◌/◌, ◌%◌, ◌^◌, ◌≤◌, ◌<◌, min, max}
pub use mathlib.Core.Path.{◌≡◌, refl, sym, ap, ◌∙◌, subst, fun_ext}
pub use mathlib.Core.Logic.{◌≢◌, ◌↔◌, ◌⊎◌, inl, inr}
pub use mathlib.Core.Bool.{Bool, true, false, not, ◌&&◌, ◌||◌}
pub use mathlib.Core.Option.{Option, none, some}
pub use mathlib.Core.List.{List, [], ◌∷◌, ◌++◌, map, foldl, Perm}
pub use native.Mathlib.Omega.{arith}
