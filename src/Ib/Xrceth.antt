-- ===== src/Ib/Xrceth.antt =====
-- include/spec/ib-spec.h: the XRC extended transport header (`ib_xrceth`).
use libroce.Base.{ℕ, ◌%◌, ◌^◌, bit_and, ◌≡◌, arith}
use libroce.Word.{bswap32}
use libroce.Word.Bits.{bit_and-low, bit_and_comm}
use libroce.Word.Swap.{bswap32-bswap32}

pub record Xrceth : Type 0 where
  pub u32_0 : ℕ

abbrev xrcsrq_mask : ℕ
xrcsrq_mask = 0x00ffffff

unfoldable pub get_xrcsrq : Xrceth → ℕ
get_xrcsrq h = bit_and xrcsrq_mask (bswap32 h.u32_0)

-- The eight digits above the field are reserved, and are not kept.
unfoldable pub set_xrcsrq : Xrceth → ℕ → Xrceth
set_xrcsrq h xrcsrq = record h { u32_0 = bswap32 (bit_and xrcsrq_mask xrcsrq) }

pub get_xrcsrq-set_xrcsrq :
    (h : Xrceth) (xrcsrq : ℕ) → get_xrcsrq (set_xrcsrq h xrcsrq) ≡ xrcsrq % 2 ^ 24
unfolding get_xrcsrq set_xrcsrq
get_xrcsrq-set_xrcsrq h xrcsrq = ground (
  arith,
  bit_and_comm xrcsrq_mask xrcsrq,
  bit_and-low 24 xrcsrq,
  bswap32-bswap32 (xrcsrq % 2 ^ 24) (omega arith),
  bit_and_comm xrcsrq_mask (xrcsrq % 2 ^ 24),
  bit_and-low 24 (xrcsrq % 2 ^ 24),
)
