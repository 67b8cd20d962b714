-- ===== src/Base.antt =====
-- The names that the other modules share: the libraries', passed on, and those of the children
-- (Boolean tests, lists over the native numbers, Python's `str`, its exceptions and `sorted`).
mod Tests
mod Lists
mod Text
mod Lines
mod Errors
pub mod Decimal
pub mod Members
pub mod Sort
pub mod Dict
pub use Tests.*
pub use Lists.*
pub use Text.*
unfoldable pub use Text.{str_eq, str_le, contains, is_space, lstrip, rstrip, strip}
pub use Lines.*
unfoldable pub use Lines.{file_lines, words_of, split, split_all, splitlines, with_newline}
pub use Errors.*
pub use Prim.Native.Nat.{ℕ, zero, suc, ◌+◌, ◌-◌, ◌*◌, ◌/◌, ◌%◌, ◌^◌, ◌≤◌, ◌<◌}
pub use Prim.Native.Nat.{min}
pub use Prim.Native.String.{String}
pub use mathlib.Core.Path.{◌≡◌, refl, sym, ap, ◌∙◌}
pub use mathlib.Core.Logic.{◌≢◌, ◌↔◌, ◌⊎◌, inl, inr}
pub use mathlib.Core.Bool.{Bool, true, false, not, ◌&&◌, ◌||◌}
pub use mathlib.Core.Option.{Option, none, some}
pub use mathlib.Core.List.{List, [], ◌∷◌, ◌++◌, map, append-nil, append_assoc, map-append}
pub use native.Mathlib.Omega.{arith}
