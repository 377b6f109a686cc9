-- ===== src/Base.antt =====
-- The names that the other modules share: the libraries', passed on, and those of the children.
mod Tests
mod Lists
mod Member
mod Errors
mod Sort
pub use Tests.*
pub use Lists.*
pub use Member.*
pub use Sort.{distinct, distinct-eq, length-sort_by}
unfoldable pub use Sort.{insert_by, sort_by}
pub use Sort.{In-sort_by, sort_by-In}
pub use Errors.{
  Kind, not_found, conflict, schema_error, type_error, query_error, format_error, read_only,
  too_large, unsupported, Result, ok, fail, ◌>>=◌, reject_if, >>=-eq-ok,
}
unfoldable pub use Errors.{error_name}
pub use Prim.Native.Nat.{ℕ, zero, suc, ◌+◌, ◌-◌, ◌*◌, ◌/◌, ◌%◌, ◌^◌, ◌≤◌, ◌<◌}
pub use mathlib.Core.Path.{◌≡◌, refl, sym, ap, ◌∙◌, subst}
pub use mathlib.Core.Logic.{◌≢◌, ◌↔◌, ◌⊎◌, inl, inr}
pub use mathlib.Core.Bool.{Bool, true, false, not, ◌&&◌, ◌||◌}
pub use mathlib.Core.Option.{Option, none, some}
pub use mathlib.Core.List.{List, [], ◌∷◌, ◌++◌, map}
pub use native.Mathlib.Omega.{arith}
