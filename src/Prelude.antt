-- ===== src/Prelude.antt =====
-- Names that every other module takes: the libraries', passed on, and those of the children.
mod Bools
mod Lists
mod ByteStrings
mod Int
pub mod Decimal
pub mod Hexadecimal
pub mod Map
pub mod Scan
pub use Bools.*
pub use Lists.*
pub use ByteStrings.*
unfoldable pub use ByteStrings.{bytes_eq, bytes_lt}
pub use Int.*
unfoldable pub use Int.{to_int32}
pub use Prim.Native.Nat.{
  ℕ, zero, suc, ◌+◌, ◌-◌, ◌*◌, ◌/◌, ◌%◌, ◌^◌, ◌≤◌, ◌<◌, min, compare, Ordering,
}
pub use mathlib.Core.Path.{◌≡◌, refl, sym, ap, subst, ◌∙◌, ◌≡⟨◌⟩◌, ◌∎}
pub use mathlib.Core.Logic.{◌≢◌, ◌↔◌, ◌⊎◌, inl, inr}
pub use mathlib.Core.Bool.{Bool, true, false, not, ◌&&◌, ◌||◌}
pub use mathlib.Core.Option.{Option, none, some}
pub use mathlib.Core.List.{List, [], ◌∷◌, ◌++◌, map, append-nil, append_assoc}
pub use native.Mathlib.Omega.{arith}
