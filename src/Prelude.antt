-- ===== src/Prelude.antt =====
-- The names that the other modules share: those of the libraries, passed on, and those of the
-- children. Nothing here models code of the repository except the Python built-ins that it uses.
mod Equality
mod Lists
mod Members
mod Truth
mod Sort
mod Results
pub mod Text
pub mod Dict
pub mod Calls
pub mod Costs
unfoldable pub use Equality.*
unfoldable pub use Lists.*
pub use Members.*
unfoldable pub use Truth.*
unfoldable pub use Sort.*
unfoldable pub use Results.*
pub use Prim.Native.Nat.{ℕ, zero, suc, ◌+◌, ◌-◌, ◌≤◌, ◌<◌}
pub use Prim.Native.String.{String, ◌++◌ as ◌<>◌}
pub use mathlib.Core.Path.{◌≡◌, refl, sym, ap, ap₂, ◌∙◌, subst, fun_ext}
pub use mathlib.Core.Logic.{◌≢◌, ◌↔◌, ◌⊎◌, inl, inr}
pub use mathlib.Core.Bool.{Bool, true, false, not, ◌&&◌, ◌||◌}
pub use mathlib.Core.Option.{Option, none, some}
pub use mathlib.Core.List.{List, [], ◌∷◌, ◌++◌, map, reverse, Perm, append-nil, append_assoc}
pub use native.Mathlib.Omega.{arith}
