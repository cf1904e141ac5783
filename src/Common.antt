-- ===== src/Common.antt =====
-- The names that the other modules share: the libraries' names, passed on, and the helpers on
-- tests, lists, texts, maps and sorting of the modules below.
mod Tests
mod Lists
mod Text
mod Ascii
mod Sort
mod Maps
mod Int
pub use Tests.*
pub use Lists.*
pub use Text.*
pub use Ascii.*
unfoldable pub use Ascii.{trim_left, trim_right}
unfoldable pub use Text.{str_eq, str_leb, is_prefix, contains}
pub use Sort.*
unfoldable pub use Sort.{insert_by, sort_by}
pub use Maps.*
pub use Int.*
unfoldable pub use Maps.{lookup, insert, delete, has_key, insert_all}
pub use Prim.Native.Nat.{ℕ, zero, suc, ◌+◌, ◌-◌, ◌*◌, ◌/◌, ◌%◌, ◌≤◌, ◌<◌}
pub use mathlib.Core.Path.{◌≡◌, refl, sym, ap, ◌∙◌}
pub use mathlib.Core.Logic.{◌≢◌, ◌↔◌, ◌⊎◌, inl, inr}
pub use mathlib.Core.Bool.{Bool, true, false, not, ◌&&◌, ◌||◌}
pub use mathlib.Core.Option.{Option, none, some}
pub use mathlib.Core.List.{List, [], ◌∷◌, ◌++◌, map, Perm}
pub use native.Mathlib.Omega.{arith}
