-- ===== src/Ib/Bth/Valid.antt =====
-- Every setter of `ib_bth` leaves fields that fit their C types.
use libroce.Base.{ℕ, ◌^◌, ◌<◌, bit_and, bit_or, Bool, true, false, arith}
use libroce.Word.{not32, bswap32}
use libroce.Word.Bits.{bit_or-lt, bit_and-le}
use libroce.Word.Field.{put-field}
use libroce.Word.Swap.{bswap16-lt, bswap32-lt}
use libroce.Ib.Bth.{
  Bth, IsBth, set_opcode, set_se, set_mig, set_padcnt, set_tver, set_pkey, set_fecn, set_becn,
  clear_resv1, set_destqp, set_ack, clear_resv2, set_psn,
}

or-fits : (x m : ℕ) → x < 2 ^ 32 → m < 2 ^ 32 → bit_or x (bswap32 m) < 2 ^ 32
or-fits x m hx hm = bit_or-lt 32 x (bswap32 m) hx (bswap32-lt m hm)

and-fits : (x m : ℕ) → x < 2 ^ 32 → m < 2 ^ 32 → bit_and x m < 2 ^ 32
and-fits x m hx hm = omega (arith, bit_and-le 32 x m hx hm)

put-fits :
    (x n : ℕ)
    → x < 2 ^ 32
    → bswap32 (bit_or (bit_and 0xffffff n) (bit_and (not32 0xffffff) (bswap32 x))) < 2 ^ 32
put-fits x n h =
    bswap32-lt _
      (omega (arith, put-field 0 24 (bswap32 x) n (omega arith) (bswap32-lt x h), bswap32-lt x h))

module _ (h : Bth) (v : IsBth h) where
  pub set_opcode-IsBth : (qp_type opcode : ℕ) → IsBth (set_opcode h qp_type opcode)
  unfolding set_opcode
  set_opcode-IsBth qp_type opcode = omega arith

  pub set_se-IsBth : (se : Bool) → IsBth (set_se h se)
  unfolding set_se
  set_se-IsBth true = omega arith
  set_se-IsBth false = omega arith

  pub set_mig-IsBth : (mig : Bool) → IsBth (set_mig h mig)
  unfolding set_mig
  set_mig-IsBth true = omega arith
  set_mig-IsBth false = omega arith

  pub set_padcnt-IsBth : (padcnt : ℕ) → IsBth (set_padcnt h padcnt)
  unfolding set_padcnt
  set_padcnt-IsBth padcnt = omega arith

  pub set_tver-IsBth : (tver : ℕ) → IsBth (set_tver h tver)
  unfolding set_tver
  set_tver-IsBth tver = omega arith

  pub set_pkey-IsBth : (pkey : ℕ) → IsBth (set_pkey h pkey)
  unfolding set_pkey
  set_pkey-IsBth pkey = omega (arith, bswap16-lt pkey)

  pub set_fecn-IsBth : (fecn : Bool) → IsBth (set_fecn h fecn)
  unfolding set_fecn
  set_fecn-IsBth true = omega (arith, or-fits h.u32_1 0x80000000 v.u32_1_fits (omega arith))
  set_fecn-IsBth false =
      omega (arith, and-fits h.u32_1 (not32 (bswap32 0x80000000)) v.u32_1_fits (omega arith))

  pub set_becn-IsBth : (becn : Bool) → IsBth (set_becn h becn)
  unfolding set_becn
  set_becn-IsBth true = omega (arith, or-fits h.u32_1 0x40000000 v.u32_1_fits (omega arith))
  set_becn-IsBth false =
      omega (arith, and-fits h.u32_1 (not32 (bswap32 0x40000000)) v.u32_1_fits (omega arith))

  pub clear_resv1-IsBth : IsBth (clear_resv1 h)
  unfolding clear_resv1
  clear_resv1-IsBth = omega (
    arith,
    and-fits h.u32_1 (bswap32 (not32 0x3f000000)) v.u32_1_fits (bswap32-lt _ (omega arith)),
  )

  pub set_destqp-IsBth : (destqp : ℕ) → IsBth (set_destqp h destqp)
  unfolding set_destqp
  set_destqp-IsBth destqp = omega (arith, put-fits h.u32_1 destqp v.u32_1_fits)

  pub set_ack-IsBth : (ack : Bool) → IsBth (set_ack h ack)
  unfolding set_ack
  set_ack-IsBth true = omega (arith, or-fits h.u32_2 0x80000000 v.u32_2_fits (omega arith))
  set_ack-IsBth false =
      omega (arith, and-fits h.u32_2 (not32 (bswap32 0x80000000)) v.u32_2_fits (omega arith))

  pub clear_resv2-IsBth : IsBth (clear_resv2 h)
  unfolding clear_resv2
  clear_resv2-IsBth = omega (
    arith,
    and-fits h.u32_2 (bswap32 (not32 0x7f000000)) v.u32_2_fits (bswap32-lt _ (omega arith)),
  )

  pub set_psn-IsBth : (psn : ℕ) → IsBth (set_psn h psn)
  unfolding set_psn
  set_psn-IsBth psn = omega (arith, put-fits h.u32_2 psn v.u32_2_fits)
