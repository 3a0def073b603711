-- ===== src/Responder/Stuck.antt =====
-- What a write without immediate leaves behind.
use Prim.{tt}
use libroce.Base.{
  ℕ, suc, ◌^◌, ◌<◌, ◌==◌, ◌≡◌, ◌≢◌, refl, sym, ap, ◌∙◌, List, [], ◌∷◌, Option, none, some, pos,
  eproto, true, false, ◌>>=◌, arith,
}
use libroce.Iov.{Iov, iov_len}
use libroce.Psn.{compare_psn, is_positive, is_negative}
use libroce.Psn.Order.{compare_psn_sign}
use libroce.Ib.Opcode
use libroce.Ib.Bth.{Bth, get_psn, get_opcode}
use libroce.Ib.Reth.{Reth}
use libroce.Ib.Aeth.{syndrome_nak, nak_invalid_request}
use libroce.Qp.{rc}
use libroce.Requester.{Ctx}
use libroce.Responder.{Responder}
use libroce.Responder.Wire.{reth_from}
use libroce.Responder.Payload.{get_eth}
use libroce.Responder.Write.{write_refused, rdma_write_payload}
use libroce.Responder.Reliable.{with_eth, write_reth, dispatch, recv_finished, recv_rc}
use libroce.Responder.Answer.{Answered, netpkt_acknowledge-Answered}
use libroce.Responder.Written.{bind_some, write-Written, finished-Written}
use libroce.Responder.Order.{expecting}
use libroce.Responder.Run.{Arrival}

-- A header of sixteen bytes and `n` bytes behind it.
abbrev pub Carries : (ℕ → ℕ) → List Iov → ℕ → Type 0
Carries mem iovs n =
    (eth : List ℕ) × (rest : List Iov) × (get_eth mem iovs 16 ≡ some (some (eth, rest)))
    × (iov_len rest ≡ some n)

-- A packet in order goes through the switch.
in_order :
    (c : Ctx) (r : Responder) (iovs : List Iov) (bth : Bth)
    → get_opcode bth ≡ Opcode.rdma_write_only
    → get_psn bth ≡ r.rq_psn
    → recv_rc c r iovs bth
      ≡ (dispatch c (expecting r) Opcode.rdma_write_only iovs >>= recv_finished c bth)
unfolding recv_rc
in_order c r iovs bth code here = rw (code, here, before, behind, recv_rc) refl
  where
    before : is_positive (compare_psn r.rq_psn r.rq_psn) ≡ false
    before = ground (arith, compare_psn_sign r.rq_psn r.rq_psn)

    behind : is_negative (compare_psn r.rq_psn r.rq_psn) ≡ false
    behind = ground (arith, compare_psn_sign r.rq_psn r.rq_psn)

dispatch_write :
    (c : Ctx) (r : Responder) (iovs rest : List Iov) (eth : List ℕ)
    → get_eth r.mem iovs 16 ≡ some (some (eth, rest))
    → dispatch c r Opcode.rdma_write_only iovs
      ≡ rdma_write_payload c r rest (some (reth_from eth)) none false Opcode.rdma_write_only
unfolding dispatch write_reth with_eth
dispatch_write c r iovs rest eth e = rw e refl

-- Where something has been written, the packet is refused.
refuses :
    (c : Ctx) (r : Responder) (iovs : List Iov) (reth : Option Reth) (n : ℕ)
    → r.qp.qp_type ≡ rc
    → c.memory 0 ≡ true
    → r.writtenlen ≢ 0
    → iov_len iovs ≡ some n
    → (r' : Responder) × (rdma_write_payload c r iovs reth none false Opcode.rdma_write_only
        ≡ some (eproto, r'))
      × Answered syndrome_nak nak_invalid_request r r'
unfolding rdma_write_payload write_refused
refuses c r iovs reth n type memory begun counted =
    let (r', e, one) =
      netpkt_acknowledge-Answered c r syndrome_nak nak_invalid_request r.rq_psn type memory in
    let busy : (r.writtenlen == 0) ≡ false = ground arith in
    (r', rw (counted, busy, e, rdma_write_payload) refl, one)

-- WRITE ONLY packets with the number `psn` and a header.
abbrev pub AreWrites : (ℕ → ℕ) → ℕ → List Arrival → Type 0
AreWrites mem psn [] = Unit
AreWrites mem psn (a ∷ more) =
    (get_opcode a.bth ≡ Opcode.rdma_write_only)
    × (get_psn a.bth ≡ psn)
    × ((n : ℕ) × Carries mem a.iovs n)
    × AreWrites mem psn more

-- Each of the packets, one after the other, is refused and answered.
abbrev pub AreRefused : Ctx → Responder → List Arrival → Type 0
AreRefused c r [] = Unit
AreRefused c r (a ∷ more) =
    (r' : Responder) × (recv_rc c r a.iovs a.bth ≡ some (eproto, r'))
    × Answered syndrome_nak nak_invalid_request (expecting r) r'
    × AreRefused c r' more

begun-AreRefused :
    (c : Ctx) (r : Responder) (mem : ℕ → ℕ) (psn : ℕ) (arrivals : List Arrival)
    → c.memory 0 ≡ true
    → r.qp.qp_type ≡ rc
    → r.writtenlen ≢ 0
    → r.mem ≡ mem
    → r.rq_psn ≡ psn
    → AreWrites mem psn arrivals
    → AreRefused c r arrivals
unfolding recv_finished
begun-AreRefused c r mem psn [] memory type begun same at writes = tt
begun-AreRefused c r mem psn (a ∷ more) memory type begun same at
      (code, here, (n, (eth, rest, got, counted)), writes) =
    let (r', refused, (pkt, ext, sent)) =
      refuses c (expecting r) rest (some (reth_from eth)) n type memory begun counted in
    (
      r',
      in_order c r a.iovs a.bth code (here ∙ sym at)
          ∙ ap (λ m. m >>= recv_finished c a.bth)
              (dispatch_write c (expecting r) a.iovs rest eth
                  (ap (λ m. get_eth m a.iovs 16) same ∙ got)
                ∙ refused),
      (pkt, ext, sent),
      begun-AreRefused c r' mem psn more memory (ap (λ s. s.qp.qp_type) sent ∙ type)
          (λ z. begun (sym (ap (λ s. s.writtenlen) sent) ∙ z)) (ap (λ s. s.mem) sent ∙ same)
          (ap (λ s. s.rq_psn) sent ∙ at) writes,
    )

-- On a queue pair of a reliable connection where there is memory for an answer and no write is
-- open: behind a WRITE ONLY packet in order that is carried out, with at least one byte, all WRITE
-- ONLY packets in order with a header that come one after the other are refused. At each the call
-- returns -EPROTO; one packet is sent, with a NAK of an invalid request and the message number in
-- its header, the message number is one on, the mark of a gap is taken off, and nothing else is
-- changed.
pub write_only-refuses :
    (c : Ctx) (r r' : Responder) (iovs : List Iov) (bth : Bth) (n : ℕ) (arrivals : List Arrival)
    → r.qp.qp_type ≡ rc
    → c.memory 0 ≡ true
    → r.writtenlen ≡ 0
    → get_opcode bth ≡ Opcode.rdma_write_only
    → get_psn bth ≡ r.rq_psn
    → Carries r.mem iovs (suc n)
    → suc n < 2 ^ 32
    → recv_rc c r iovs bth ≡ some (pos 0, r')
    → AreWrites r'.mem r'.rq_psn arrivals
    → AreRefused c r' arrivals
write_only-refuses c r r' iovs bth n arrivals type memory nothing code here
      (eth, rest, got, counted) small ran writes =
    let (x, e, done) =
      bind_some (dispatch c (expecting r) Opcode.rdma_write_only iovs) (recv_finished c bth)
        (pos 0, r') (sym (in_order c r iovs bth code here) ∙ ran) in
    let e' = sym (dispatch_write c (expecting r) iovs rest eth got) ∙ e in
    let (was, same) =
      finished-Written c bth (expecting r) r' x (suc n) memory type done (λ zero_ret.
        write-Written c (expecting r) (x.1) rest (reth_from eth) (suc n) small nothing counted
          (e' ∙ ap (λ k. some (k, x.1)) zero_ret)) in
    begun-AreRefused c r' r'.mem r'.rq_psn arrivals memory (same ∙ type) (λ z. omega arith) refl
      refl writes
