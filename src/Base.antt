-- ===== src/Base.antt =====
-- Names that the other modules share: the libraries', passed on, and those of the children.
mod Tests
mod Lists
mod Text
mod Maps
mod Numbers
mod Results
mod Uniqueness
mod Trim
mod Kept
pub use Maps.*
pub use Tests.*
pub use Lists.*
pub use Results.*
pub use Uniqueness.*
pub use Kept.*
unfoldable pub use Trim.*
pub use Numbers.{ℤ, pos, negsuc}
unfoldable pub use Numbers.{
  parse_int, number_or_zero, scan_int, decode_base64, decode_groups, group, one_byte, two_bytes,
  three_bytes, sextet, without_newlines,
}
unfoldable pub use Text.*
pub use Prim.Native.Nat.{ℕ, zero, suc, ◌+◌, ◌-◌, ◌*◌, ◌/◌, ◌%◌, ◌^◌, ◌≤◌, ◌<◌}
pub use mathlib.Core.Path.{◌≡◌, refl, sym, ap, ap₂, subst, ◌∙◌}
pub use mathlib.Core.Logic.{◌≢◌, ◌↔◌, ◌⊎◌, inl, inr}
pub use mathlib.Core.Bool.{Bool, true, false, not, ◌&&◌, ◌||◌}
pub use mathlib.Core.Option.{Option, none, some}
pub use mathlib.Core.List.{List, [], ◌∷◌, ◌++◌, map, append-nil, append_assoc}
pub use native.Mathlib.Omega.{arith}
