-- ===== src/Responder/Datagram.antt =====
-- responder.c: `roce_recv_ud`, a packet for a queue pair of datagrams.
use libroce.Base.{
  ℕ, zero, ◌+◌, ◌==◌, List, ◌∷◌, Option, none, some, ℤ, pos, eproto, Bool, false, if◌then◌else◌,
  replicate, ◌>>=◌,
}
use libroce.Iov.{Iov, read}
use libroce.Psn.{psn_inc}
use libroce.Ib.Opcode
use libroce.Ib.Bth.{Bth, get_opcode}
use libroce.Ib.Deth.{Deth, get_srcqp}
use libroce.Ib.Immdt.{Immdt}
use libroce.Requester.{Ctx}
use libroce.Responder.{Responder}
use libroce.Responder.Wire.{immdt_from, deth_from}
use libroce.Responder.Payload.{get_eth, store, recv_payload}

-- `roce_build_grh` on the forty bytes at `ip`: what it leaves of memory.
unfoldable pub build_grh : (ℕ → ℕ) → ℕ → Bool → ℕ → ℕ
unfolding store
build_grh mem ip is_ipv4 =
    if is_ipv4 then store (store mem (ip + 20) (read mem ip 20)) ip (replicate 20 0) else mem

-- Behind the switch.
abbrev pub with_srcqp : Deth → Responder → Responder
with_srcqp deth r = record r { qp = record r.qp { dest_qp_num = get_srcqp deth } }

unfoldable pub ud_finished : Deth → ℤ × Responder → ℤ × Responder
unfolding get_srcqp psn_inc
ud_finished deth (pos zero, r) = (pos 0, record (with_srcqp deth r) { rq_psn = psn_inc r.rq_psn })
ud_finished deth (ret, r) = (ret, with_srcqp deth r)

-- The message with the header of its packet in front, which the entry before the list points to.
unfoldable pub recv_ud_payload :
    Ctx → Responder → ℕ → Bool → List Iov → Option Immdt → ℕ → Option (ℤ × Responder)
unfolding build_grh recv_payload
recv_ud_payload c r ip is_ipv4 iovs eth opcode =
    recv_payload c (record r { mem = build_grh r.mem ip is_ipv4 })
      (record { base = ip; len = 40 } ∷ iovs) eth false opcode

unfoldable pub ud_dispatch :
    Ctx → Responder → ℕ → Bool → List Iov → ℕ → Deth → Option (ℤ × Responder)
unfolding get_eth recv_ud_payload ud_finished immdt_from
ud_dispatch c r ip is_ipv4 iovs opcode deth =
    if opcode == Opcode.send_only_with_immediate
    then (do
      got ← get_eth r.mem iovs 4
      elim got [
        | none ↦ some (ud_finished deth (eproto, r))
        | some (eth, rest) ↦ do
          result ← recv_ud_payload c r ip is_ipv4 rest (some (immdt_from eth)) opcode
          some (ud_finished deth result)
      ])
    else if opcode == Opcode.send_only
    then (do
      result ← recv_ud_payload c r ip is_ipv4 iovs none opcode
      some (ud_finished deth result))
    else some (eproto, r)

-- `roce_recv_ud`, with the header at `ip`.
unfoldable pub recv_ud : Ctx → Responder → List Iov → Bth → ℕ → Bool → Option (ℤ × Responder)
unfolding get_eth deth_from ud_dispatch get_opcode
recv_ud c r iovs bth ip is_ipv4 = do
  got ← get_eth r.mem iovs 8
  elim got [
    | none ↦ some (eproto, r)
    | some (eth, rest) ↦ ud_dispatch c r ip is_ipv4 rest (get_opcode bth) (deth_from eth)
  ]
