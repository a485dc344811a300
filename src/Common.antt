-- ===== src/Common.antt =====
-- The names that every other module shares: the libraries', passed on, and those of the children.
mod Tests
mod Lists
mod Table
mod Text
mod Int
pub use Tests.*
pub use Lists.*
pub use Int.*
unfoldable pub use Text.{
  rstrip, strip, splitlines, split, partition, after_prefix, contains_text, lookup, put, rpartition,
  rsplit_first, join_lines,
}
pub use Table.{
  changed, changed?, meets, find_where-update_where, count_where-update_where,
  count_where-update_where_le, at_most_one-update_where, count_where-append, find_where-append,
  count_where-of_none, count_where-keyed, find_where-meets, any-select_where, any-map,
  fails-of_none, any-of_count, count_where_pos, count_where-order_by, count_where-select_where,
  All-select_where, All-select_where_of,
}
unfoldable pub use Table.{
  select_where, find_where, count_where, update_where, delete_where, insert_by, order_by,
}
pub use Prim.Native.Nat.{ℕ, zero, suc, ◌+◌, ◌-◌, ◌*◌, ◌/◌, ◌%◌, ◌≤◌, ◌<◌}
pub use Prim.Native.String.{String}
pub use mathlib.Core.Path.{◌≡◌, refl, sym, ap, ◌∙◌}
pub use mathlib.Core.Logic.{◌≢◌, ◌↔◌, ◌⊎◌, inl, inr}
pub use mathlib.Core.Bool.{Bool, true, false, not, ◌&&◌, ◌||◌}
pub use mathlib.Core.Option.{Option, none, some}
pub use mathlib.Core.List.{List, [], ◌∷◌, ◌++◌, map, Mem}
pub use native.Mathlib.Omega.{arith}
pub use text.Mathlib.Text.{◌==◌ as str_eq}
pub use text.Mathlib.TextEquality.{eq_iff}
pub use text.Mathlib.TextPositions.{eq_refl}
