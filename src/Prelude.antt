-- ===== src/Prelude.antt =====
-- The names that the other modules share: the libraries', passed on, and those of the children.
mod Tests
mod Lists
mod Classes
mod Partial
mod Sums
mod Tables
pub use Tests.*
pub use Lists.*
pub use Classes.{
  Eq, nat_eq, pair_eq, list_eq, list_beq, list_beq_iff, get-insert, get-erase, beq_refl, pair_beq,
  pair_beq_iff, member-add_member, or_default,
}
unfoldable pub use Classes.{get, insert, erase, member, add_member}
pub use Sums.*
unfoldable pub use Sums.{total}
pub use Tables.{agree-eq, up_to-lookup}
unfoldable pub use Tables.{agree, up_to}
pub use Partial.*
pub use Prim.Native.Nat.{ℕ, zero, suc, ◌+◌, ◌-◌, ◌*◌, ◌/◌, ◌%◌, ◌^◌, ◌≤◌, ◌<◌}
pub use mathlib.Core.Path.{◌≡◌, refl, sym, ap, ◌∙◌}
pub use mathlib.Core.Logic.{◌≢◌, ◌↔◌, ◌⊎◌, inl, inr}
pub use mathlib.Core.Bool.{Bool, true, false, not, ◌&&◌, ◌||◌}
pub use mathlib.Core.Option.{Option, none, some}
pub use mathlib.Core.List.{List, [], ◌∷◌, ◌++◌, map}
pub use native.Mathlib.Omega.{arith}
