-- ===== src/Ib/Bth/Layout.antt =====
-- The base transport header as the specification draws it: the fields by name, read off the
-- header's numbers by division, with the multi-byte ones taken from network order.
use libroce.Base.{ℕ, ◌/◌, ◌%◌, ◌^◌, Bool, true, false}
use libroce.Word.{bswap16, bswap32}
use libroce.Ib.Bth.{Bth}

pub record Layout : Type 0 where
  pub qp_type : ℕ
  pub opcode : ℕ
  pub se : ℕ
  pub mig : ℕ
  pub padcnt : ℕ
  pub tver : ℕ
  pub pkey : ℕ
  pub fecn : ℕ
  pub becn : ℕ
  pub resv1 : ℕ
  pub destqp : ℕ
  pub ack : ℕ
  pub resv2 : ℕ
  pub psn : ℕ

abbrev pub bit : Bool → ℕ
bit true = 1
bit false = 0

-- From an opcode byte, a flags byte and the three fields in host order.
abbrev pub layout_of : ℕ → ℕ → ℕ → ℕ → ℕ → Layout
layout_of op f k a b = record {
  qp_type = op / 2 ^ 5;
  opcode = op % 2 ^ 5;
  se = f / 2 ^ 7;
  mig = f / 2 ^ 6 % 2;
  padcnt = f / 2 ^ 4 % 2 ^ 2;
  tver = f % 2 ^ 4;
  pkey = k;
  fecn = a / 2 ^ 31;
  becn = a / 2 ^ 30 % 2;
  resv1 = a / 2 ^ 24 % 2 ^ 6;
  destqp = a % 2 ^ 24;
  ack = b / 2 ^ 31;
  resv2 = b / 2 ^ 24 % 2 ^ 7;
  psn = b % 2 ^ 24;
}

unfoldable pub layout : Bth → Layout
layout h = layout_of h.opcode h.flags (bswap16 h.pkey) (bswap32 h.u32_1) (bswap32 h.u32_2)
