-- ===== src/Prelude.antt =====
-- The names that the other modules share: the libraries', passed on, and those of the children.
mod Tests
mod Lists
mod Int
mod Sorting
pub use Tests.*
pub use Lists.{All, length}
unfoldable pub use Lists.{any, all}
unfoldable pub use Sorting.{filter, first_n, skip_n, insert_by, sort_by}
pub use Sorting.{
  Ordered, sort_by-Ordered, first_n-Ordered, first_n-length, filter-all, filter_kept, sort_by-all,
  first_n-all, length-sort_by, first_n_cases,
}
pub use Int.{
  ℤ, pos, negsuc, pos_part, neg_part, sub_ℕ, ◌≤ℤ◌, ltb_ℤ, leb_ℤ, max_int64, wrap64, IsInt64,
}
unfoldable pub use Int.{◌+ℤ◌, ◌-ℤ◌, ◌+i64◌, ◌-i64◌}
pub use Prim.Native.Nat.{ℕ, zero, suc, ◌+◌, ◌-◌, ◌*◌, ◌/◌, ◌≤◌, ◌<◌}
pub use Prim.Native.String.{String, count}
pub use mathlib.Core.Path.{◌≡◌, refl, sym, ap, ◌∙◌, subst}
pub use mathlib.Core.Logic.{◌≢◌, ◌↔◌, ◌⊎◌, inl, inr}
pub use mathlib.Core.Bool.{Bool, true, false, not, ◌&&◌, ◌||◌}
pub use mathlib.Core.Option.{Option, none, some}
pub use mathlib.Core.List.{List, [], ◌∷◌, ◌++◌}
pub use native.Mathlib.Omega.{arith}
pub use text.Mathlib.Text.{◌==◌ as str_eq}
pub use text.Mathlib.TextEquality.{eq_iff}
