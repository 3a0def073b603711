-- ===== src/Responder/Reliable.antt =====
-- responder.c: `roce_recv_rc`, a packet for a queue pair of a reliable connection.
use libroce.Base.{
  ℕ, zero, ◌==◌, List, Option, none, some, ℤ, pos, eproto, Bool, true, false, if◌then◌else◌, ◌>>=◌,
}
use libroce.Iov.{Iov}
use libroce.Psn.{psn_inc, compare_psn, is_positive, is_negative}
use libroce.Ib.Opcode
use libroce.Ib.Bth.{Bth, get_psn, get_opcode, get_ack}
use libroce.Ib.Aeth.{get_syndrome_type, syndrome_ack, syndrome_nak, nak_psn_sequence_error}
use libroce.Ib.Reth.{Reth}
use libroce.Requester.{Ctx}
use libroce.Requester.Queue.{Syndrome, ack, nak, other, handle_acknowledge}
use libroce.Responder.{Responder, netpkt_acknowledge}
use libroce.Responder.Wire.{immdt_from, reth_from, aeth_from}
use libroce.Responder.Payload.{get_eth, recv_payload}
use libroce.Responder.Write.{rdma_write_payload}

-- `roce_out_of_seq`: one NAK for each gap.
unfoldable pub out_of_seq : Ctx → Responder → Option Responder
unfolding netpkt_acknowledge
out_of_seq c r = if r.in_psn_nak then some r else do
  r' ← netpkt_acknowledge c r syndrome_nak nak_psn_sequence_error r.rq_psn
  some (record r' { in_psn_nak = true })

-- A header of so many bytes and what follows it; -EPROTO where the packet is too short.
abbrev pub eth_next :
    Responder
    → (List ℕ → List Iov → Option (ℤ × Responder))
    → Option (List ℕ × List Iov)
    → Option (ℤ × Responder)
eth_next r next none = some (eproto, r)
eth_next r next (some (eth, iovs)) = next eth iovs

unfoldable pub with_eth :
    Responder → List Iov → ℕ → (List ℕ → List Iov → Option (ℤ × Responder)) → Option (ℤ × Responder)
unfolding get_eth
with_eth r iovs size next = do got ← get_eth r.mem iovs size; eth_next r next got

module _ (c : Ctx) (r : Responder) (opcode : ℕ) where
  unfoldable pub send_immdt : Bool → List Iov → Option (ℤ × Responder)
  unfolding with_eth recv_payload immdt_from
  send_immdt inprocess iovs =
      with_eth r iovs 4 (λ eth rest. recv_payload c r rest (some (immdt_from eth)) inprocess opcode)

  unfoldable pub write_reth : List Iov → Option (ℤ × Responder)
  unfolding with_eth rdma_write_payload reth_from
  write_reth iovs =
      with_eth r iovs 16
        (λ eth rest. rdma_write_payload c r rest (some (reth_from eth)) none false opcode)

  unfoldable pub write_immdt : Option Reth → Bool → List Iov → Option (ℤ × Responder)
  unfolding with_eth rdma_write_payload immdt_from
  write_immdt reth inprocess iovs =
      with_eth r iovs 4
        (λ eth rest. rdma_write_payload c r rest reth (some (immdt_from eth)) inprocess opcode)

  unfoldable pub write_reth_immdt : List Iov → Option (ℤ × Responder)
  unfolding with_eth write_immdt reth_from
  write_reth_immdt iovs =
      with_eth r iovs 16 (λ eth rest. write_immdt (some (reth_from eth)) false rest)

  -- The switch on the operation code, for requests.
  unfoldable pub dispatch : List Iov → Option (ℤ × Responder)
  unfolding recv_payload rdma_write_payload send_immdt write_reth write_immdt write_reth_immdt
  dispatch iovs =
      if opcode == Opcode.send_first
      then recv_payload c r iovs none false opcode
      else if opcode == Opcode.send_middle
      then recv_payload c r iovs none true opcode
      else if opcode == Opcode.send_last_with_immediate
      then send_immdt true iovs
      else if opcode == Opcode.send_last
      then recv_payload c r iovs none true opcode
      else if opcode == Opcode.send_only_with_immediate
      then send_immdt false iovs
      else if opcode == Opcode.send_only
      then recv_payload c r iovs none false opcode
      else if opcode == Opcode.rdma_write_only
      then write_reth iovs
      else if opcode == Opcode.rdma_write_only_with_immediate
      then write_reth_immdt iovs
      else if opcode == Opcode.rdma_write_first
      then write_reth iovs
      else if opcode == Opcode.rdma_write_middle
      then rdma_write_payload c r iovs none none true opcode
      else if opcode == Opcode.rdma_write_last
      then rdma_write_payload c r iovs none none true opcode
      else if opcode == Opcode.rdma_write_last_with_immediate
      then write_immdt none true iovs
      else some (eproto, r)

abbrev pub syndrome_of : ℕ → Syndrome
syndrome_of type = if type == syndrome_ack then ack else if type == syndrome_nak then nak else other

-- The case of an acknowledgement, which goes to the requester.
unfoldable pub recv_acknowledge : Responder → ℕ → List Iov → Option (ℤ × Responder)
unfolding with_eth aeth_from get_syndrome_type handle_acknowledge
recv_acknowledge r psn iovs = with_eth r iovs 4 (λ eth rest. do
  qp ← handle_acknowledge r.qp (syndrome_of (get_syndrome_type (aeth_from eth))) psn
  some (pos 0, record r { qp = qp }))

-- Behind the switch.
unfoldable pub answered : Ctx → Responder → Bth → Option Responder
unfolding netpkt_acknowledge get_ack get_psn
answered c r bth =
    if get_ack bth then netpkt_acknowledge c r syndrome_ack 0x1f (get_psn bth) else some r

unfoldable pub recv_finished : Ctx → Bth → ℤ × Responder → Option (ℤ × Responder)
unfolding answered psn_inc
recv_finished c bth (pos zero, r) = do
  r' ← answered c r bth
  some (pos 0, record r' { rq_psn = psn_inc r'.rq_psn })
recv_finished c bth (ret, r) = some (ret, r)

-- `roce_recv_rc`.
unfoldable pub recv_rc : Ctx → Responder → List Iov → Bth → Option (ℤ × Responder)
unfolding get_opcode get_psn compare_psn recv_acknowledge out_of_seq dispatch recv_finished
recv_rc c r iovs bth =
    if get_opcode bth == Opcode.acknowledge
    then recv_acknowledge r (get_psn bth) iovs
    else if is_positive (compare_psn r.rq_psn (get_psn bth))
    then some (pos 0, r)
    else if is_negative (compare_psn r.rq_psn (get_psn bth))
    then (do r' ← out_of_seq c r; some (pos 0, r'))
    else do
      result ← dispatch c (record r { in_psn_nak = false }) (get_opcode bth) iovs
      recv_finished c bth result
