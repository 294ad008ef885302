-- ===== src/Base.antt =====
-- The names that every other module shares: the libraries', passed on, and those of the children.
mod Tests
mod Lists
mod Effects
mod Utf8
pub mod Keeps
pub mod Returns
pub mod Safe
pub use Tests.*
pub use Lists.*
pub use Effects.{Outcome, ok, err, panic, Action}
pub use Effects.{map_err, continue, ◌>>◌}
unfoldable pub use Effects.{pure, raise, fault, lift, gets, ensure, ◌>>=◌}
unfoldable pub use Utf8.{is_utf8, from_utf8}
pub use Utf8.{is_utf8-ascii}
pub use Prim.Native.Nat.{ℕ, zero, suc, ◌+◌, ◌-◌, ◌*◌, ◌/◌, ◌%◌, ◌^◌, ◌≤◌, ◌<◌}
pub use mathlib.Core.Path.{◌≡◌, refl, sym, ap, ◌∙◌, fun_ext}
pub use mathlib.Core.Logic.{◌≢◌, ◌↔◌, ◌⊎◌, inl, inr}
pub use mathlib.Core.Bool.{Bool, true, false, ◌&&◌, ◌||◌, not}
pub use mathlib.Core.Option.{Option, none, some}
pub use mathlib.Core.List.{List, [], ◌∷◌, ◌++◌, map, append-nil, append_assoc}
pub use native.Mathlib.Omega.{arith}
unfoldable pub use mathlib.Core.List.{flatten}
