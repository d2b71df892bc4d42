-- ===== src/Prelude.antt =====
-- The names that the other modules share: the libraries', passed on, and those of the children.
mod Tests
mod Lists
mod Dicts
mod Keys
pub use Tests.*
pub use Lists.{
  length, length-append, contains-keep, contains-discard, contains-add, contains-append, Pick, here,
  there, sum_of, sum_of-Pick, Distinct, keep-append, keep-agree, keep-none, keep-all, keep-Distinct,
  append-Distinct, list_eq_refl, list_eq→eq, list_eq_iff, all_of-contains, set_eq_refl,
}
unfoldable pub use Lists.{keep, some_of, all_of, contains, list_eq, set_eq, add, discard}
pub use Dicts.{
  get-put, get-delete_all, Apart, Apart-none, put-Apart, put-append, append-nil, append-cons,
  put-new, put-put, delete_all-absent, delete_all-put,
}
pub use Keys.{
  contains-put, put-Distinct, get-absent, get-present, keys-put, keys-delete_all,
  delete_all-Distinct, weight_at, sum_of-put, sum_of-delete,
}
unfoldable pub use Dicts.{get, put, delete_all, keys}
pub use Prim.Native.Nat.{ℕ, zero, suc, ◌+◌, ◌-◌, ◌*◌, ◌≤◌, ◌<◌, max, min}
pub use Prim.Native.String.{String}
pub use mathlib.Core.Path.{◌≡◌, refl, sym, ap, subst, ◌∙◌}
pub use mathlib.Core.Logic.{◌≢◌, ◌↔◌, ◌⊎◌, inl, inr}
pub use mathlib.Core.Bool.{Bool, true, false, not, ◌&&◌, ◌||◌}
pub use mathlib.Core.Option.{Option, none, some}
pub use mathlib.Core.List.{List, [], ◌∷◌, ◌++◌, map}
pub use native.Mathlib.Omega.{arith}
pub use text.Mathlib.Text.{◌==◌ as str_eq}
pub use text.Mathlib.TextEquality.{eq_iff}
pub use text.Mathlib.TextPositions.{eq_refl}
