-- ===== src/Prelude.antt =====
-- The names that the other modules share: the libraries', passed on, and those of three children.
pub mod Tests
pub mod Lists
pub mod Strings
pub mod Int
pub mod Options
pub mod Ends
pub use Prim.Native.Nat.{ℕ, zero, suc, ◌+◌, ◌-◌, ◌*◌, ◌/◌, ◌%◌, ◌^◌, ◌≤◌, ◌<◌, min}
pub use mathlib.Core.Path.{◌≡◌, refl, sym, ap, ap₂, subst, ◌∙◌, ◌≡⟨◌⟩◌, ◌∎}
pub use mathlib.Core.Logic.{◌≢◌, ◌↔◌, ◌⊎◌, inl, inr}
pub use mathlib.Core.Bool.{Bool, true, false, not, ◌&&◌, ◌||◌}
pub use mathlib.Core.Option.{Option, none, some}
pub use mathlib.Core.List.{List, [], ◌∷◌, ◌++◌, map, reverse, foldl}
pub use mathlib.Core.List.{append-nil, append_assoc, map-append, reverse-append}
pub use native.Mathlib.Omega.{arith}
pub use Tests.*
pub use Lists.*
unfoldable pub use native.Mathlib.Decide.{dec_lt}
unfoldable pub use Lists.{any, all}
unfoldable pub use Strings.{
  codes, text_eq, text_lt, starts_with, ends_with, find, find_from, count, replace, is_space,
  lstrip, rstrip, strip, split, join, lower, decimal,
}
pub use Strings.{
  Text, text_eq_iff, text_eq_refl, length-delete, find-lt, split-first, up_to-eq,
  starts_with-length,
}
