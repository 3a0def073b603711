-- ===== src/Base/Int.antt =====
-- Signed results; `negsuc n` is -(n + 1).
use Prim.Native.Nat.{ℕ}

pub data ℤ : Type 0 where
  pos : ℕ → ℤ
  negsuc : ℕ → ℤ

-- Negated error numbers.
abbrev pub enomem : ℤ
enomem = negsuc 11

abbrev pub eacces : ℤ
eacces = negsuc 12

abbrev pub ebusy : ℤ
ebusy = negsuc 15

abbrev pub einval : ℤ
einval = negsuc 21

abbrev pub eagain : ℤ
eagain = negsuc 10

abbrev pub efault : ℤ
efault = negsuc 13

abbrev pub eproto : ℤ
eproto = negsuc 70

abbrev pub enotsup : ℤ
enotsup = negsuc 94
