-- ===== src/Base.antt =====
-- The names that the other modules share: the libraries', passed on, and those of the children.
mod Tests
mod Lists
mod Strings
pub mod Dict
pub mod TextLaws
pub mod Decimal
pub mod Result
pub mod Utf8
pub mod Members
pub use Tests.*
pub use Lists.*
unfoldable pub use Strings.{
  unwrap_or, join_with, text_eq, mem_text, starts_with, ends_with, contains, mem, trim_start,
  trim_end, before, split, after_last, split_once, rsplit_once, strip_prefix, replace_chars,
  is_alphanumeric, lower, upper, to_lowercase, to_uppercase, is_whitespace, is_control, trim,
  utf8_width, byte_len, decimal,
}
pub use Strings.{
  Text, Bytes, codes, text_eq_iff, text_eq_refl, text_eq_sound, text_eq_comm, is_upper, is_lower,
  is_digit,
}
pub use Prim.Native.Nat.{ℕ, zero, suc, ◌+◌, ◌-◌, ◌*◌, ◌/◌, ◌%◌, ◌^◌, ◌≤◌, ◌<◌}
pub use mathlib.Core.Path.{◌≡◌, refl, sym, ap, ◌∙◌, subst}
pub use mathlib.Core.Logic.{◌≢◌, ◌↔◌, ◌⊎◌, inl, inr}
pub use mathlib.Core.Bool.{Bool, true, false, ◌&&◌, ◌||◌, not}
pub use mathlib.Core.Option.{Option, none, some}
pub use mathlib.Core.List.{List, [], ◌∷◌, ◌++◌, map, reverse}
pub use native.Mathlib.Omega.{arith}
