-- ===== src/Base.antt =====
-- The names that every module shares: the libraries' own, passed on, and two children with
-- Boolean tests on numbers and lists measured by native numbers.
mod Tests
mod Lists
mod Order
mod Int
mod Update
mod Bind
pub use Update.*
pub use Bind.*
pub use Tests.*
pub use Lists.*
pub use Int.{ℤ, pos, negsuc, enomem, eacces, ebusy, einval, eagain, efault, eproto, enotsup}
unfoldable pub use Order.{lt_wf}
pub use Prim.Native.Nat.{ℕ, zero, suc, ◌+◌, ◌-◌, ◌*◌, ◌/◌, ◌%◌, ◌^◌, ◌≤◌, ◌<◌, min, max}
pub use Prim.Native.Nat.{bit_and, bit_or, bit_xor}
pub use mathlib.Core.Path.{◌≡◌, refl, sym, ap, ap₂, ◌∙◌, subst, fun_ext}
pub use mathlib.Core.Logic.{◌≢◌, ◌↔◌, ◌⊎◌, inl, inr}
pub use mathlib.Core.Bool.{Bool, true, false, ◌&&◌, ◌||◌, not}
pub use mathlib.Core.Option.{Option, none, some}
pub use mathlib.Core.List.{List, [], ◌∷◌, ◌++◌, map, append-nil, append_assoc}
pub use native.Mathlib.Omega.{arith}
