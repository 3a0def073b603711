-- ===== src/Ib/Bth/Getters.antt =====
-- The getters of `ib_bth` read the fields of the specification's layout.
use libroce.Base.{◌≡◌, arith}
use libroce.Word.{bswap32}
use libroce.Word.Bits.{bit_and-low, bit_and-field}
use libroce.Word.Swap.{bswap32-lt}
use libroce.Ib.Bth.{
  Bth, IsBth, get_qp_type, get_opcode, get_se, get_mig, get_padcnt, get_tver, get_pkey, get_fecn,
  get_becn, get_destqp, get_ack, get_psn,
}
use libroce.Ib.Bth.Layout.{Layout, layout, bit}
use libroce.Word.Field.{masked}

-- The fields as the getters return them, with the reserved ones, which have no getter, from `l`.
abbrev pub got : Bth → Layout → Layout
got h l = record l {
  qp_type = get_qp_type h;
  opcode = get_opcode h;
  se = bit (get_se h);
  mig = bit (get_mig h);
  padcnt = get_padcnt h;
  tver = get_tver h;
  pkey = get_pkey h;
  fecn = bit (get_fecn h);
  becn = bit (get_becn h);
  destqp = get_destqp h;
  ack = bit (get_ack h);
  psn = get_psn h;
}

-- On a header whose fields fit their C types every getter returns its field of the layout.
pub got-layout : (h : Bth) → IsBth h → got h (layout h) ≡ layout h
unfolding layout get_qp_type get_opcode get_se get_mig get_padcnt get_tver get_pkey get_fecn
    get_becn get_destqp get_ack get_psn
got-layout h v = ground (
  arith,
  bit_and-low 5 h.opcode,
  masked 7 1 h.flags,
  masked 6 1 h.flags,
  masked 4 2 h.flags,
  masked 0 4 h.flags,
  bit_and-field 31 1 (bswap32 h.u32_1),
  bit_and-field 30 1 (bswap32 h.u32_1),
  masked 0 24 (bswap32 h.u32_1),
  bit_and-field 31 1 (bswap32 h.u32_2),
  masked 0 24 (bswap32 h.u32_2),
  bswap32-lt h.u32_1 v.u32_1_fits,
  bswap32-lt h.u32_2 v.u32_2_fits,
)
