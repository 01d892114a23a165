-- ===== src/Prelude.antt =====
-- Names that the other modules share: the libraries', passed on, and those of the children.
mod Tests
mod Keys
mod Lists
mod Sort
mod Ascending
mod Dicts
mod Results
mod Texts
pub use Tests.*
pub use Lists.*
pub use Results.*
unfoldable pub use Keys.{contains}
unfoldable pub use Keys.{string_dec}
pub use Keys.{Key, string_key, nat_key, contains-append, ◌==◌}
unfoldable pub use Lists.{keep, any, count, find_first}
unfoldable pub use Sort.{insert_by, sort_by}
pub use Sort.*
pub use Ascending.*
unfoldable pub use Dicts.{lookup, put, delete}
pub use Dicts.*
pub use Prim.Native.Nat.{ℕ, zero, suc, ◌+◌, ◌-◌, ◌*◌, ◌/◌, ◌%◌, ◌^◌, ◌≤◌, ◌<◌, min, max}
pub use Prim.Native.String.{String}
pub use mathlib.Core.Bool.{Bool, true, false, ◌&&◌, ◌||◌, not}
pub use mathlib.Core.List.{List, [], ◌∷◌, ◌++◌, map, reverse}
pub use mathlib.Core.Logic.{◌≢◌, ◌↔◌, ◌⊎◌, inl, inr, ite}
pub use mathlib.Core.Option.{Option, none, some}
pub use mathlib.Core.Path.{◌≡◌, refl, sym, ap, subst, ◌∙◌}
pub use native.Mathlib.Omega.{arith}
unfoldable pub use Texts.{take_chars, starts_with}
pub use Texts.{count-take_chars-le}
