-- ===== src/Base/Update.antt =====
-- A function changed at one argument, for a field of objects that are known by their addresses.
use Prim.Native.Nat.{ℕ}
use mathlib.Core.Path.{◌≡◌}
use mathlib.Core.Logic.{◌≢◌}
use native.Mathlib.Omega.{arith}
use libroce.Base.Tests.{◌==◌, if◌then◌else◌}

module _ {A : Type 0} (f : ℕ → A) where
  abbrev pub update : ℕ → A → ℕ → A
  update p v q = if q == p then v else f q

  pub update_self : (p : ℕ) (v : A) → update p v p ≡ v
  update_self p v = ground arith

  pub update_ne : (p : ℕ) (v : A) (q : ℕ) → q ≢ p → update p v q ≡ f q
  update_ne p v q h = ground arith
