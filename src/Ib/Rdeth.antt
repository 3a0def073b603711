-- ===== src/Ib/Rdeth.antt =====
-- include/spec/ib-spec.h: the reliable datagram extended transport header (`ib_rdeth`).
use libroce.Base.{ℕ, ◌%◌, ◌^◌, bit_and, ◌≡◌, arith}
use libroce.Word.{bswap32}
use libroce.Word.Bits.{bit_and-low, bit_and_comm}
use libroce.Word.Swap.{bswap32-bswap32}

pub record Rdeth : Type 0 where
  pub u32_0 : ℕ

abbrev eecnxt_mask : ℕ
eecnxt_mask = 0x00ffffff

unfoldable pub get_eecnxt : Rdeth → ℕ
get_eecnxt h = bit_and eecnxt_mask (bswap32 h.u32_0)

-- The eight digits above the field are reserved, and are not kept.
unfoldable pub set_eecnxt : Rdeth → ℕ → Rdeth
set_eecnxt h eecnxt = record h { u32_0 = bswap32 (bit_and eecnxt_mask eecnxt) }

pub get_eecnxt-set_eecnxt :
    (h : Rdeth) (eecnxt : ℕ) → get_eecnxt (set_eecnxt h eecnxt) ≡ eecnxt % 2 ^ 24
unfolding get_eecnxt set_eecnxt
get_eecnxt-set_eecnxt h eecnxt = ground (
  arith,
  bit_and_comm eecnxt_mask eecnxt,
  bit_and-low 24 eecnxt,
  bswap32-bswap32 (eecnxt % 2 ^ 24) (omega arith),
  bit_and_comm eecnxt_mask (eecnxt % 2 ^ 24),
  bit_and-low 24 (eecnxt % 2 ^ 24),
)
