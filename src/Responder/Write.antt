-- ===== src/Responder/Write.antt =====
-- responder.c: `roce_rdma_write_payload`, which copies a packet to the memory that its sender
-- names.
use libroce.Base.{
  ℕ, ◌+◌, ◌==◌, List, [], ◌∷◌, Option, none, some, ℤ, pos, eagain, eproto, eacces, Bool, true,
  false, ◌||◌, if◌then◌else◌, not, ◌>>=◌,
}
use libroce.Word.{u32, u64}
use libroce.Iov.{Iov, iov_len}
use libroce.Ib.Opcode
use libroce.Ib.Aeth.{syndrome_nak, nak_invalid_request}
use libroce.Ib.Immdt.{Immdt}
use libroce.Ib.Reth.{Reth, get_va, get_rkey, get_dmalen}
use libroce.Wr.{RecvWr, success}
use libroce.Requester.{Ctx}
use libroce.Responder.{
  Responder, find_wr, pop_posted, free_recv_wr, recv_cq_comp, netpkt_acknowledge,
}
use libroce.Responder.Payload.{Placed, denied, placed, map_and_place}

-- What the first packet of a write says of it. A packet without the header is the null pointer.
unfoldable pub write_started : Responder → Option Reth → Option Responder
unfolding get_va get_rkey get_dmalen
write_started r reth = if not (r.writtenlen == 0) then some r else elim reth [
  | none ↦ none
  | some h ↦
      some (record r { iova = get_va h; rkey = get_rkey h; dmalen = get_dmalen h; writtenlen = 0 })
]

-- The end of the work request of a write, where it completes; one that is null is followed.
unfoldable pub write_ended : Option RecvWr → Bool × Responder → Option (ℤ × Responder)
unfolding free_recv_wr
write_ended wr (false, r) = some (pos 0, r)
write_ended none (true, r) = none
write_ended (some w) (true, r) = do
  freed ← free_recv_wr r w
  some (pos 0, record freed { iova = 0; writtenlen = 0 })

unfoldable pub write_completed :
    Responder → Option RecvWr → ℕ → Option Immdt → ℕ → Option (ℤ × Responder)
unfolding recv_cq_comp write_ended
write_completed r wr wr_id eth opcode =
    write_ended wr (recv_cq_comp r opcode wr_id r.writtenlen eth success)

abbrev pub takes_wr : ℕ → Bool
takes_wr opcode =
    opcode == Opcode.rdma_write_only_with_immediate
    || opcode == Opcode.rdma_write_last_with_immediate

-- Behind the copy.
unfoldable pub write_done : Responder → ℕ → Option Immdt → ℕ → Option (ℤ × Responder)
unfolding pop_posted find_wr write_completed
write_done r buf_len eth opcode =
    let written = record r { writtenlen = u32 (r.writtenlen + buf_len) } in
    let (p, r') = pop_posted written in
    if not (takes_wr opcode)
    then write_completed written none 0 eth opcode
    else if p == 0
    then some (eagain, written)
    else do w ← find_wr p r'.wrs; write_completed r' (some w) w.wr_id eth opcode

unfoldable pub write_placed : Responder → ℕ → Option Immdt → ℕ → Placed → Option (ℤ × Responder)
unfolding write_done
write_placed r buf_len eth opcode denied = some (eacces, r)
write_placed r buf_len eth opcode (placed mem) =
    write_done (record r { mem = mem }) buf_len eth opcode

unfoldable pub write_into :
    Ctx → Responder → List Iov → ℕ → Option Immdt → ℕ → Option (ℤ × Responder)
unfolding map_and_place write_placed
write_into c r iovs buf_len eth opcode = do
  p ←
      map_and_place c r
        (record { addr = u64 (r.iova + r.writtenlen); length = buf_len; lkey = r.rkey } ∷ []) false
        2 iovs
  write_placed r buf_len eth opcode p

-- A packet that does not fit what came before is answered by a NAK.
unfoldable pub write_refused : Ctx → Responder → Option (ℤ × Responder)
unfolding netpkt_acknowledge
write_refused c r = do
  r' ← netpkt_acknowledge c r syndrome_nak nak_invalid_request r.rq_psn
  some (eproto, r')

-- `roce_rdma_write_payload`. `roce_set_qp_state` at its label `error` does nothing.
unfoldable pub rdma_write_payload :
    Ctx → Responder → List Iov → Option Reth → Option Immdt → Bool → ℕ → Option (ℤ × Responder)
unfolding iov_len write_started write_into write_refused
rdma_write_payload c r iovs reth eth inprocess opcode = do
  buf_len ← iov_len iovs
  if (if inprocess then r.writtenlen == 0 else not (r.writtenlen == 0))
      then write_refused c r
      else do r' ← write_started r reth; write_into c r' iovs buf_len eth opcode
