-- ===== src/Prelude.antt =====
-- Names that the other modules share: numbers, paths, options, lists, results and texts.
mod Tests
mod Lists
mod Results
mod Maps
unfoldable pub use Tests.*
unfoldable pub use Lists.*
pub use Results.*
unfoldable pub use Maps.{lookup, insert, remove}
pub use Maps.{
  Eq, nat_eq, text_eq, lookup-insert, lookup-remove, lookup-insert_self, lookup-insert_ne,
  lookup-remove_self, lookup-remove_ne,
}
pub use Prim.Native.Nat.{ℕ, zero, suc, ◌+◌, ◌-◌, ◌*◌, ◌/◌, ◌%◌, ◌^◌, ◌≤◌, ◌<◌, min, max}
pub use mathlib.Core.Path.{◌≡◌, refl, sym, ap, ap₂, ◌∙◌, subst}
pub use mathlib.Core.Logic.{◌≢◌, ◌↔◌, ◌⊎◌, inl, inr}
pub use mathlib.Core.Bool.{Bool, true, false, not, ◌&&◌, ◌||◌}
pub use mathlib.Core.Option.{Option, none, some}
pub use mathlib.Core.List.{List, [], ◌∷◌, ◌++◌, map, append_assoc, append-nil}
pub use native.Mathlib.Omega.{arith}
