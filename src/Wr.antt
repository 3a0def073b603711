-- ===== src/Wr.antt =====
-- include/roce/roce.h and include/private/roce-private.h: work requests and completions. Where an
-- enumeration is stored in a field of fixed width its members are numbers.
use libroce.Base.{
  ℕ, List, ◌==◌, ◌||◌, if◌then◌else◌, not, Bool, true, false, bit_and, Option, none, some,
}
use libroce.Sge.{Sge}
use libroce.Ib.Opcode

-- `roce_wr_opcode`.
pub data WrOpcode : Type 0 where
  send send_with_imm send_with_inv rdma_write rdma_write_with_imm rdma_read atomic_cmp_and_swp
        atomic_fetch_and_add atomic_write flush local_inv reg_mr bind_mw opcode_max :
      WrOpcode

-- `roce_wc_opcode`.
pub data WcOpcode : Type 0 where
  wc_send wc_rdma_write wc_rdma_read wc_comp_swap wc_fetch_add wc_atomic_write wc_flush wc_local_inv
        wc_reg_mr wc_bind_mw wc_recv wc_recv_rdma_with_imm wc_opcode_max :
      WcOpcode

-- `roce_wc_status`, those that the code sets.
abbrev pub success : ℕ
success = 0

abbrev pub loc_len_err : ℕ
loc_len_err = 1

abbrev pub loc_qp_op_err : ℕ
loc_qp_op_err = 2

-- `roce_wc_flags`, those that the code sets.
abbrev pub with_grh : ℕ
with_grh = 1

abbrev pub with_imm : ℕ
with_imm = 2

abbrev pub with_invalidate : ℕ
with_invalidate = 4

-- `roce_send_flags`, those that the code reads.
abbrev pub signaled : ℕ
signaled = 2

abbrev pub solicited : ℕ
solicited = 4

abbrev pub inline : ℕ
inline = 8

-- `_roce_send_wr` with its `send_wr`: its address, and that of its `sge`. `imm_data` is the union
-- with `invalidated_rkey`, and of the union `wr` the views for writes and for datagrams stand side
-- by side.
pub record SendWr : Type 0 where
  pub address : ℕ
  pub sge_address : ℕ
  pub error : ℕ
  pub mapped : Bool
  pub wr_id : ℕ
  pub opcode : WrOpcode
  pub send_flags : ℕ
  pub imm_data : ℕ
  pub remote_addr : ℕ
  pub rkey : ℕ
  pub remote_qpn : ℕ
  pub remote_qkey : ℕ
  pub ah : ℕ
  pub sges : List Sge

-- `_roce_recv_wr` with its `recv_wr`, and its address.
pub record RecvWr : Type 0 where
  pub address : ℕ
  pub byte_len : ℕ
  pub sge_idx : ℕ
  pub sge_off : ℕ
  pub wr_id : ℕ
  pub sges : List Sge

-- `roce_wc`, without the fields that are always zero.
pub record Wc : Type 0 where
  pub wr_id : ℕ
  pub status : ℕ
  pub opcode : WcOpcode
  pub byte_len : ℕ
  pub local_qpn : ℕ
  pub remote_qpn : ℕ
  pub imm_data : ℕ
  pub wc_flags : ℕ

abbrev pub has : ℕ → ℕ → Bool
has flags flag = not (bit_and flags flag == 0)

unfoldable pub send_wr_is_inline : SendWr → Bool
send_wr_is_inline w = has w.send_flags inline

abbrev pub is_local_opcode : WrOpcode → Bool
is_local_opcode local_inv = true
is_local_opcode reg_mr = true
is_local_opcode bind_mw = true
is_local_opcode opcode = false

unfoldable pub send_wr_is_local : SendWr → Bool
send_wr_is_local w = is_local_opcode w.opcode

-- `roce_send_wr_opcode_to_wc`: the operation, and the flags that it adds. `none` is a read past the
-- end of the table.
unfoldable pub send_wr_opcode_to_wc : WrOpcode → Option (WcOpcode × ℕ)
send_wr_opcode_to_wc send = some (wc_send, 0)
send_wr_opcode_to_wc send_with_imm = some (wc_send, with_imm)
send_wr_opcode_to_wc send_with_inv = some (wc_send, with_invalidate)
send_wr_opcode_to_wc rdma_write = some (wc_rdma_write, 0)
send_wr_opcode_to_wc rdma_write_with_imm = some (wc_rdma_write, with_imm)
send_wr_opcode_to_wc rdma_read = some (wc_rdma_read, 0)
send_wr_opcode_to_wc atomic_cmp_and_swp = some (wc_comp_swap, 0)
send_wr_opcode_to_wc atomic_fetch_and_add = some (wc_fetch_add, 0)
send_wr_opcode_to_wc atomic_write = some (wc_atomic_write, 0)
send_wr_opcode_to_wc flush = some (wc_flush, 0)
send_wr_opcode_to_wc local_inv = some (wc_local_inv, 0)
send_wr_opcode_to_wc reg_mr = some (wc_reg_mr, 0)
send_wr_opcode_to_wc bind_mw = some (wc_bind_mw, 0)
send_wr_opcode_to_wc opcode_max = none

-- `roce_recv_wr_opcode_to_wc` of an operation code in the table: the operation, the flags that it
-- adds, and whether it completes. The zeros of the other entries are `ROCE_WC_SEND`.
unfoldable pub recv_wr_opcode_to_wc : ℕ → WcOpcode × ℕ × Bool
recv_wr_opcode_to_wc opcode =
    if opcode == Opcode.send_last || opcode == Opcode.send_only
    then (wc_recv, 0, true)
    else if opcode == Opcode.send_last_with_immediate || opcode == Opcode.send_only_with_immediate
    then (wc_recv, with_imm, true)
    else if opcode == Opcode.rdma_write_last_with_immediate
        || opcode == Opcode.rdma_write_only_with_immediate
    then (wc_recv_rdma_with_imm, with_imm, true)
    else (wc_send, 0, false)
