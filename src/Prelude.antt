-- ===== src/Prelude.antt =====
-- The names that the modules share: the libraries', passed on, and those of the children.
pub mod Tests
pub mod Int
pub mod Texts
pub mod Codec
pub mod Lists
pub mod Elements
pub mod Outcome
pub mod Decimal
pub mod Atoi
pub mod Trim
pub mod Digits
pub mod Float
pub use Tests.*
unfoldable pub use Decimal.{format_int}
unfoldable pub use Atoi.{atoi}
unfoldable pub use Float.{float}
pub use Float.{float-exact, float-lower, float-upper, float-scaled_lower, float-scaled_upper}
pub use Digits.{IsInt64, format_int_inj, Lacks-format_int}
pub use Outcome.*
pub use Elements.{Every, Every-append, Every-weaken, Every-remove_first, Every-pop_last}
pub use Int.*
unfoldable pub use Lists.{
  select, find, update_where, delete_where, any, count_where, pop_last, remove_first,
}
pub use Lists.{
  length, length-append, take, drop, pop_last-concat, change_if, find-update_where,
  count_where-update_where,
}
unfoldable pub use Texts.{text_eq, upper, to_upper, trim_left, trim, trim_space, before}
pub use Texts.{
  Lacks, Text, codes, text_eq_iff, text_eq_refl, is_empty, upper_idem, to_upper_idem,
  to_upper-before,
}
pub use Codec.{Json, doc, quoted, other, unmarshal}
pub use Prim.Native.Nat.{ℕ, zero, suc, ◌+◌, ◌-◌, ◌*◌, ◌/◌, ◌%◌, ◌^◌, ◌≤◌, ◌<◌, min}
pub use mathlib.Core.Path.{◌≡◌, refl, sym, ap, ap₂, ◌∙◌, subst}
pub use mathlib.Core.Logic.{◌≢◌, ◌↔◌, ◌⊎◌, inl, inr, ite}
pub use mathlib.Core.Bool.{Bool, true, false, not, ◌&&◌, ◌||◌}
pub use mathlib.Core.Option.{Option, none, some}
pub use mathlib.Core.List.{List, [], ◌∷◌, ◌++◌, map, reverse}
pub use native.Mathlib.Omega.{arith}
