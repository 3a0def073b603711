-- ===== src/Netpkt.antt =====
-- netpkt.c: the headers of an outgoing packet.
pub mod SetBth
pub mod Eth
use libroce.Base.{ℕ, Bool, true, false, Option, none, some}
use libroce.Ib.Bth.{
  Bth, set_opcode, set_se, set_mig, set_padcnt, set_tver, set_pkey, set_fecn, set_becn, clear_resv1,
  set_destqp, set_ack, clear_resv2, set_psn,
}
use libroce.Qp.{QpType, qp_type_to_ib}

-- `ROCE_PKEY`.
abbrev pub default_pkey : ℕ
default_pkey = 0xFFFF

-- The calls of `roce_netpkt_set_bth` in their order, at a type's number `ib` in the operation code.
unfoldable pub set_bth_fields : Bth → ℕ → ℕ → Bool → ℕ → ℕ → Bool → ℕ → Bth
set_bth_fields bth ib opcode se padcnt destqp ack psn =
    let bth = set_opcode bth ib opcode in
    let bth = set_se bth se in
    let bth = set_mig bth false in
    let bth = set_padcnt bth padcnt in
    let bth = set_tver bth 0 in
    let bth = set_pkey bth default_pkey in
    let bth = set_fecn bth false in
    let bth = set_becn bth false in
    let bth = clear_resv1 bth in
    let bth = set_destqp bth destqp in
    let bth = set_ack bth ack in let bth = clear_resv2 bth in set_psn bth psn

-- `none` where the queue pair's type is past the end of the table.
unfoldable pub set_bth : Bth → QpType → ℕ → Bool → ℕ → ℕ → Bool → ℕ → Option Bth
unfolding qp_type_to_ib
set_bth bth qp_type opcode se padcnt destqp ack psn = elim (qp_type_to_ib qp_type) [
  | none ↦ none
  | some ib ↦ some (set_bth_fields bth ib opcode se padcnt destqp ack psn)
]
