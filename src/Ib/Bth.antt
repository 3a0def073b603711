-- ===== src/Ib/Bth.antt =====
-- include/spec/ib-spec.h: the base transport header (`ib_bth`), its masks, getters and setters.
-- The fields hold what stands in memory; `htobe16/32` and `be16/32toh` are the byte swap of a
-- little-endian host. A setter returns the header that it leaves behind.
pub mod Layout
pub mod Flags
pub mod Setters
pub mod Getters
pub mod Valid
use libroce.Base.{ℕ, ◌+◌, ◌*◌, ◌/◌, ◌%◌, ◌^◌, ◌<◌, bit_and, bit_or, Bool, not, ◌==◌, if◌then◌else◌}
use libroce.Word.{u8, ◌<<<◌, ◌>>>◌, not32, bswap16, bswap32}

pub record Bth : Type 0 where
  pub opcode : ℕ
  pub flags : ℕ
  pub pkey : ℕ
  pub u32_1 : ℕ
  pub u32_2 : ℕ

-- Each field fits its C type.
pub record IsBth (h : Bth) : Type 0 where
  pub opcode_fits : h.opcode < 2 ^ 8
  pub flags_fit : h.flags < 2 ^ 8
  pub pkey_fits : h.pkey < 2 ^ 16
  pub u32_1_fits : h.u32_1 < 2 ^ 32
  pub u32_2_fits : h.u32_2 < 2 ^ 32

abbrev pub opcode_mask : ℕ
opcode_mask = 0x1f

abbrev pub se_mask : ℕ
se_mask = 0x80

abbrev pub mig_mask : ℕ
mig_mask = 0x40

abbrev pub padcnt_mask : ℕ
padcnt_mask = 0x30

abbrev pub tver_mask : ℕ
tver_mask = 0x0f

abbrev pub fecn_mask : ℕ
fecn_mask = 0x80000000

abbrev pub becn_mask : ℕ
becn_mask = 0x40000000

abbrev pub resv1_mask : ℕ
resv1_mask = 0x3f000000

abbrev pub destqp_mask : ℕ
destqp_mask = 0x00ffffff

abbrev pub ack_mask : ℕ
ack_mask = 0x80000000

abbrev pub resv2_mask : ℕ
resv2_mask = 0x7f000000

abbrev pub psn_mask : ℕ
psn_mask = 0x00ffffff

-- C's `!!x`.
abbrev pub truth : ℕ → Bool
truth x = not (x == 0)

unfoldable pub get_qp_type : Bth → ℕ
get_qp_type h = h.opcode >>> 5

unfoldable pub get_opcode : Bth → ℕ
get_opcode h = bit_and h.opcode opcode_mask

unfoldable pub set_opcode : Bth → ℕ → ℕ → Bth
set_opcode h qp_type opcode = record h { opcode = u8 (bit_or (qp_type <<< 5) opcode) }

unfoldable pub get_se : Bth → Bool
get_se h = truth (bit_and se_mask h.flags)

unfoldable pub set_se : Bth → Bool → Bth
set_se h se =
    if se
    then record h { flags = u8 (bit_or h.flags se_mask) }
    else record h { flags = u8 (bit_and h.flags (not32 se_mask)) }

unfoldable pub get_mig : Bth → Bool
get_mig h = truth (bit_and mig_mask h.flags)

unfoldable pub set_mig : Bth → Bool → Bth
set_mig h mig =
    if mig
    then record h { flags = u8 (bit_or h.flags mig_mask) }
    else record h { flags = u8 (bit_and h.flags (not32 mig_mask)) }

unfoldable pub get_padcnt : Bth → ℕ
get_padcnt h = bit_and padcnt_mask h.flags >>> 4

unfoldable pub set_padcnt : Bth → ℕ → Bth
set_padcnt h padcnt = record h {
  flags = u8 (bit_or (bit_and padcnt_mask (padcnt <<< 4)) (bit_and (not32 padcnt_mask) h.flags));
}

unfoldable pub get_tver : Bth → ℕ
get_tver h = bit_and tver_mask h.flags

unfoldable pub set_tver : Bth → ℕ → Bth
set_tver h tver = record h {
  flags = u8 (bit_or (bit_and tver_mask tver) (bit_and (not32 tver_mask) h.flags));
}

unfoldable pub get_pkey : Bth → ℕ
get_pkey h = bswap16 h.pkey

unfoldable pub set_pkey : Bth → ℕ → Bth
set_pkey h pkey = record h { pkey = bswap16 pkey }

unfoldable pub get_fecn : Bth → Bool
get_fecn h = truth (bit_and (bswap32 h.u32_1) fecn_mask)

unfoldable pub set_fecn : Bth → Bool → Bth
set_fecn h fecn =
    if fecn
    then record h { u32_1 = bit_or h.u32_1 (bswap32 fecn_mask) }
    else record h { u32_1 = bit_and h.u32_1 (not32 (bswap32 fecn_mask)) }

unfoldable pub get_becn : Bth → Bool
get_becn h = truth (bit_and (bswap32 h.u32_1) becn_mask)

unfoldable pub set_becn : Bth → Bool → Bth
set_becn h becn =
    if becn
    then record h { u32_1 = bit_or h.u32_1 (bswap32 becn_mask) }
    else record h { u32_1 = bit_and h.u32_1 (not32 (bswap32 becn_mask)) }

unfoldable pub clear_resv1 : Bth → Bth
clear_resv1 h = record h { u32_1 = bit_and h.u32_1 (bswap32 (not32 resv1_mask)) }

unfoldable pub get_destqp : Bth → ℕ
get_destqp h = bit_and destqp_mask (bswap32 h.u32_1)

unfoldable pub set_destqp : Bth → ℕ → Bth
set_destqp h destqp = record h {
  u32_1 =
      bswap32 (bit_or (bit_and destqp_mask destqp) (bit_and (not32 destqp_mask) (bswap32 h.u32_1)));
}

unfoldable pub get_ack : Bth → Bool
get_ack h = truth (bit_and (bswap32 h.u32_2) ack_mask)

unfoldable pub set_ack : Bth → Bool → Bth
set_ack h ack =
    if ack
    then record h { u32_2 = bit_or h.u32_2 (bswap32 ack_mask) }
    else record h { u32_2 = bit_and h.u32_2 (not32 (bswap32 ack_mask)) }

unfoldable pub clear_resv2 : Bth → Bth
clear_resv2 h = record h { u32_2 = bit_and h.u32_2 (bswap32 (not32 resv2_mask)) }

unfoldable pub get_psn : Bth → ℕ
get_psn h = bit_and psn_mask (bswap32 h.u32_2)

unfoldable pub set_psn : Bth → ℕ → Bth
set_psn h psn = record h {
  u32_2 = bswap32 (bit_or (bit_and psn_mask psn) (bit_and (not32 psn_mask) (bswap32 h.u32_2)));
}
