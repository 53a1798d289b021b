-- ===== src/Common.antt =====
-- What the modules share: the libraries' names passed on, Boolean tests and lists over the native
-- numbers, fixed-width words and big-endian fields, and the status codes of the source.
mod Tests
mod Lists
mod Words
mod Codes
mod Text
pub use Tests.*
pub use Lists.*
pub use Words.*
pub use Codes.*
pub use Text.{
  codes, starts_with, to_lower, starts_with_nocase, c_string, find, keep_space, trim_back,
  trim_front, skip_spaces, digit_value, read_digits, read_sign, read_prefix, digits,
}
unfoldable pub use Text.{strtoull, atoi, print_u32, print_lld}
pub use Prim.Native.Nat.{ℕ, zero, suc, ◌+◌, ◌-◌, ◌*◌, ◌/◌, ◌%◌, ◌^◌, ◌≤◌, ◌<◌}
pub use mathlib.Core.Path.{◌≡◌, refl, sym, ap, ◌∙◌, subst}
pub use mathlib.Core.Logic.{◌≢◌, ◌↔◌, ◌⊎◌, inl, inr}
pub use mathlib.Core.Bool.{Bool, true, false, not, ◌&&◌, ◌||◌}
pub use mathlib.Core.Option.{Option, none, some}
pub use mathlib.Core.List.{List, [], ◌∷◌, ◌++◌, map}
pub use native.Mathlib.Omega.{arith}
