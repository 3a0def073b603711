-- ===== src/Responder.antt =====
-- responder.c: what a queue pair does with the packets that it receives. The locks are not
-- modelled: each function runs as one step. `none` is a failed assertion, a null pointer followed,
-- or a work request that is followed where there is none.
pub mod Wire
pub mod Payload
pub mod Write
pub mod Reliable
pub mod Decap
pub mod Datagram
pub mod Recv
pub mod Kept
pub mod Switch
pub mod Answer
pub mod Order
pub mod Run
pub mod Cut
pub mod Whole
pub mod Intact
pub mod Written
pub mod Stuck
use libroce.Base.{
  ℕ, zero, suc, ◌+◌, ◌-◌, ◌==◌, ltb, List, [], ◌∷◌, ◌++◌, Option, none, some, ℤ, pos, eproto, Bool,
  true, false, bit_or, if◌then◌else◌, update, get_elem?, not, ◌>>=◌, ◌||◌, ◌&&◌,
}
use libroce.Word.{u32}
use libroce.Iov.{Iov, iov_len, advance}
use libroce.Ib.Aeth
use libroce.Ib.Opcode
use libroce.Ib.Bth.{Bth}
use libroce.Ib.Immdt
use libroce.Netpkt.{set_bth}
use libroce.Mr.Life.{put_mrs}
use libroce.Qp.{QpType, rc, gsi, ud}
use libroce.Qp.Modify.{QpState}
use libroce.Wr.{
  RecvWr, Wc, WcOpcode, wc_send, success, with_imm, with_grh, has, recv_wr_opcode_to_wc,
}
use libroce.Requester.{aeth_ext, Packet, Ctx, Requester, netpkt_alloc}

-- The rest of `roce_qp`, `resp` without its prefix. The first eight bytes of its union are the
-- address of the work request for messages, and `iova` for writes: `iova` here. `posted` has the
-- addresses in `rq.wrs`, and `wrs` the work requests for receiving that have not been freed; `mem`
-- is memory.
pub record Responder : Type 0 where
  pub qp : Requester
  pub qp_state : QpState
  pub rq_psn : ℕ
  pub posted : List ℕ
  pub wrs : List RecvWr
  pub mem : ℕ → ℕ
  pub iova : ℕ
  pub rkey : ℕ
  pub dmalen : ℕ
  pub writtenlen : ℕ
  pub in_psn_nak : Bool
  pub msn : ℕ

-- The work request at an address, where there is one.
unfoldable pub find_wr : ℕ → List RecvWr → Option RecvWr
find_wr p [] = none
find_wr p (w ∷ ws) = if w.address == p then some w else find_wr p ws

unfoldable pub set_wr : RecvWr → List RecvWr → List RecvWr
set_wr w [] = []
set_wr w (v ∷ vs) = (if v.address == w.address then w else v) ∷ set_wr w vs

unfoldable pub remove_wr : ℕ → List RecvWr → List RecvWr
remove_wr p [] = []
remove_wr p (w ∷ ws) = if w.address == p then ws else w ∷ remove_wr p ws

-- `__roce_pop_recv_wr`: the address, or null.
unfoldable pub pop_posted : Responder → ℕ × Responder
pop_posted r = elim r.posted [ [] ↦ (0, r) | p ∷ ps ↦ (p, record r { posted = ps }) ]

-- `roce_pop_recv_wr`.
unfoldable pub pop_recv_wr : Responder → Bool → ℕ × Responder
unfolding pop_posted
pop_recv_wr r inprocess =
    if (if inprocess then r.iova == 0 else not (r.iova == 0))
    then (0, r)
    else if not (r.iova == 0)
    then (r.iova, r)
    else let (p, r') = pop_posted r in (p, record r' { iova = p })

-- `roce_free_recv_wr`.
unfoldable pub free_recv_wr : Responder → RecvWr → Option Responder
unfolding put_mrs remove_wr
free_recv_wr r w = do
  (pds, mrs) ← put_mrs r.qp.pds r.qp.mrs w.sges
  some (record r { qp = record r.qp { pds = pds; mrs = mrs }; wrs = remove_wr w.address r.wrs })

abbrev pub is_datagram : QpType → Bool
is_datagram gsi = true
is_datagram ud = true
is_datagram type = false

-- From the label `force_comp` on, with the operation, the flags, the count and the immediate set so
-- far. What `roce_recv_cq_comp` has written to the status before is written over.
unfoldable pub force_comp : Responder → WcOpcode → ℕ → ℕ → ℕ → ℕ → ℕ → Bool × Responder
force_comp r opcode wc_flags byte_len imm_data wr_id status = (
  true,
  record r {
    qp = record r.qp {
      completed =
          r.qp.completed
          ++ record {
            wr_id = wr_id;
            status = status;
            opcode = opcode;
            byte_len = byte_len;
            local_qpn = r.qp.handle;
            remote_qpn = r.qp.dest_qp_num;
            imm_data = imm_data;
            wc_flags = wc_flags;
          }
            ∷ [];
    };
  },
)

abbrev pub grh_flag : QpType → ℕ → ℕ
grh_flag type flags = if is_datagram type then bit_or flags with_grh else flags

-- With what the table says of the operation code.
unfoldable pub complete_recv :
    Responder → WcOpcode × ℕ × Bool → ℕ → ℕ → Option Immdt.Immdt → ℕ → Bool × Responder
unfolding force_comp
complete_recv r (opcode, flags, false) wr_id byte_len eth status = (false, r)
complete_recv r (opcode, flags, true) wr_id byte_len none status =
    if has flags with_imm
    then force_comp r opcode flags 0 0 wr_id status
    else force_comp r opcode (grh_flag r.qp.qp_type flags) byte_len 0 wr_id status
complete_recv r (opcode, flags, true) wr_id byte_len (some h) status =
    let imm = if has flags with_imm then Immdt.get_immdt h else 0 in
    force_comp r opcode (grh_flag r.qp.qp_type flags) byte_len imm wr_id status

-- `roce_recv_cq_comp`.
unfoldable pub recv_cq_comp : Responder → ℕ → ℕ → ℕ → Option Immdt.Immdt → ℕ → Bool × Responder
unfolding force_comp complete_recv recv_wr_opcode_to_wc
recv_cq_comp r ib_opcode wr_id byte_len eth status =
    if status == success
    then complete_recv r (recv_wr_opcode_to_wc ib_opcode) wr_id byte_len eth status
    else force_comp r wc_send 0 0 0 wr_id status

abbrev pub is_rc : QpType → Bool
is_rc rc = true
is_rc type = false

-- The packet of an answer, and its transmission.
unfoldable pub answer : Responder → Packet → Bth → ℕ → ℕ → Responder
unfolding Aeth.set
answer r pkt bth syndrome val = record r {
  qp = record r.qp {
    sent =
        r.qp.sent
        ++ record pkt {
          bth = bth;
          ext = aeth_ext (Aeth.set (record { u32_0 = 0 }) syndrome val r.msn);
          eth_len = 4;
        }
          ∷ [];
  };
  msn = u32 (r.msn + 1);
}

-- `roce_netpkt_acknowledge` of netpkt.c.
unfoldable pub netpkt_acknowledge : Ctx → Responder → ℕ → ℕ → ℕ → Option Responder
unfolding netpkt_alloc set_bth answer
netpkt_acknowledge c r syndrome val psn = if not (is_rc r.qp.qp_type) then none else do
  pkt ← netpkt_alloc c 0 0 0 0
  bth ← set_bth pkt.bth r.qp.qp_type Opcode.acknowledge false 0 r.qp.dest_qp_num false psn
  some (answer r pkt bth syndrome val)
