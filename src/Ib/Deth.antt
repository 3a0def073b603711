-- ===== src/Ib/Deth.antt =====
-- include/spec/ib-spec.h: the datagram extended transport header (`ib_deth`).
use libroce.Base.{ℕ, ◌%◌, ◌^◌, ◌<◌, bit_and, ◌≡◌, arith}
use libroce.Word.{bswap32}
use libroce.Word.Bits.{bit_and-low}
use libroce.Word.Swap.{bswap32-bswap32}

pub record Deth : Type 0 where
  pub qkey : ℕ
  pub u32_1 : ℕ

abbrev srcqp_mask : ℕ
srcqp_mask = 0x00ffffff

unfoldable pub get_qkey : Deth → ℕ
get_qkey h = bswap32 h.qkey

unfoldable pub set_qkey : Deth → ℕ → Deth
set_qkey h qkey = record h { qkey = bswap32 qkey }

unfoldable pub get_srcqp : Deth → ℕ
get_srcqp h = bit_and (bswap32 h.u32_1) srcqp_mask

-- The eight digits above the field are reserved, and are not kept.
unfoldable pub set_srcqp : Deth → ℕ → Deth
set_srcqp h srcqp = record h { u32_1 = bswap32 (bit_and srcqp srcqp_mask) }

abbrev pub filled : Deth → ℕ → ℕ → Deth
filled h qkey srcqp = set_srcqp (set_qkey h qkey) srcqp

-- What the two setters write, the getters read back: a queue key of 32 digits whole, and the low 24
-- digits of the queue pair number.
pub deth_getters-filled :
    (h : Deth) (qkey srcqp : ℕ)
    → qkey < 2 ^ 32
    → (get_qkey (filled h qkey srcqp) ≡ qkey) × (get_srcqp (filled h qkey srcqp) ≡ srcqp % 2 ^ 24)
unfolding get_qkey get_srcqp set_qkey set_srcqp
deth_getters-filled h qkey srcqp hq = (bswap32-bswap32 qkey hq, read)
  where
    read : bit_and (bswap32 (bswap32 (bit_and srcqp srcqp_mask))) srcqp_mask ≡ srcqp % 2 ^ 24
    read = ground (
      arith,
      bit_and-low 24 srcqp,
      bswap32-bswap32 (srcqp % 2 ^ 24) (omega arith),
      bit_and-low 24 (srcqp % 2 ^ 24),
    )
