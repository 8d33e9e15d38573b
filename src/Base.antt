-- ===== src/Base.antt =====
-- What the other modules share: the libraries' names passed on, and tests, dictionaries and texts.
mod Tests
mod Equality
mod Lists
mod Decimal
mod Text
pub mod Dict
pub mod Int
pub mod Json
pub use Tests.*
pub use Equality.*
unfoldable pub use Text.{
  truthy, truthy_opt, is_space, strip_left, strip_right, strip, prepend, split, split_once,
}
unfoldable pub use Lists.{
  length, keep, every, some_of, contains, add, to_set, subset, meets, insert_sorted, sorted,
  text_le, All,
}
pub use Lists.{
  length-append, contains-append, contains-add, contains-to_set, contains_of_subset, subset_mono,
  contains-sorted,
}
unfoldable pub use Decimal.{show, ◌<>◌, emit, digit, value}
pub use Decimal.{code-digit, value-show, show-injective, numbered-injective}
pub use text.Mathlib.TextEquality.{eq_iff}
pub use Prim.Native.Nat.{ℕ, zero, suc, ◌+◌, ◌-◌, ◌*◌, ◌/◌, ◌%◌, ◌≤◌, ◌<◌}
pub use Prim.Native.String.{String}
pub use mathlib.Core.Path.{◌≡◌, refl, sym, ap, ◌∙◌}
pub use mathlib.Core.Logic.{◌≢◌, ◌↔◌, ◌⊎◌, inl, inr}
pub use mathlib.Core.Bool.{Bool, true, false, not, ◌&&◌, ◌||◌}
pub use mathlib.Core.Option.{Option, none, some}
pub use mathlib.Core.List.{List, [], ◌∷◌, ◌++◌, map}
pub use native.Mathlib.Omega.{arith}
