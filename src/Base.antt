-- ===== src/Base.antt =====
-- Names shared by the models of the plugins: the libraries' names, passed on, and those of the
-- children below. Models no code of its own.
mod Tests
mod Lists
mod Text
pub mod Result
pub mod Int
pub mod Bits
pub mod Join
pub mod Memory
pub use Tests.*
pub use Lists.*
unfoldable pub use Text.{str_eq, starts_with, strstr, strchr}
pub use Text.*
pub use Prim.Native.Nat.{ℕ, zero, suc, ◌+◌, ◌-◌, ◌*◌, ◌/◌, ◌%◌, ◌^◌, ◌≤◌, ◌<◌, max}
pub use mathlib.Core.Path.{◌≡◌, refl, sym, ap, ◌∙◌}
pub use mathlib.Core.Logic.{◌≢◌, ◌↔◌, ◌⊎◌, inl, inr}
pub use mathlib.Core.Bool.{Bool, true, false, not, ◌&&◌, ◌||◌}
pub use mathlib.Core.Option.{Option, none, some}
pub use mathlib.Core.List.{List, [], ◌∷◌, ◌++◌, map, append_assoc, append-nil}
pub use native.Mathlib.Omega.{arith}
