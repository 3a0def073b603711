-- ===== src/Responder/Answer.antt =====
-- An answer of `roce_netpkt_acknowledge`, and what it leaves alone.
use libroce.Base.{ℕ, ◌+◌, ◌≡◌, refl, ap, [], ◌∷◌, ◌++◌, some, true, false}
use libroce.Word.{u32}
use libroce.Ib.Aeth
use libroce.Ib.Opcode
use libroce.Ib.Bth.{Bth}
use libroce.Netpkt.{set_bth, set_bth_fields}
use libroce.Qp.{QpType, rc}
use libroce.Requester.{Ctx, Packet, no_ext, aeth_ext, netpkt_alloc}
use libroce.Responder.{Responder, netpkt_acknowledge, is_rc, answer}

-- One answer has been sent, with the syndrome, the value and the message number in its header, and
-- nothing else is changed but that the message number is one on.
abbrev pub Answered : ℕ → ℕ → Responder → Responder → Type 0
Answered syndrome val r r' =
    (pkt : Packet) × (pkt.ext ≡ aeth_ext (Aeth.set (record { u32_0 = 0 }) syndrome val r.msn))
    × (r' ≡ record r { qp = record r.qp { sent = r.qp.sent ++ pkt ∷ [] }; msn = u32 (r.msn + 1) })

-- The fields of a packet that `netpkt_alloc` makes.
blank : Bth
blank = record { opcode = 0; flags = 0; pkey = 0; u32_1 = 0; u32_2 = 0 }

set_bth-rc :
    (type : QpType) (opcode destqp psn : ℕ)
    → type ≡ rc
    → (bth : Bth) × (set_bth blank type opcode false 0 destqp false psn ≡ some bth)
unfolding set_bth
set_bth-rc type opcode destqp psn e = (
  set_bth_fields blank 0 opcode false 0 destqp false psn,
  ap (λ t. set_bth blank t opcode false 0 destqp false psn) e,
)

-- Where there is memory, an answer is sent.
pub netpkt_acknowledge-Answered :
    (c : Ctx) (r : Responder) (syndrome val psn : ℕ)
    → r.qp.qp_type ≡ rc
    → c.memory 0 ≡ true
    → (r' : Responder) × (netpkt_acknowledge c r syndrome val psn ≡ some r')
      × Answered syndrome val r r'
unfolding netpkt_acknowledge netpkt_alloc answer blank
netpkt_acknowledge-Answered c r syndrome val psn type memory =
    let connected : is_rc r.qp.qp_type ≡ true = ap is_rc type in
    let (bth, eq) = set_bth-rc r.qp.qp_type Opcode.acknowledge r.qp.dest_qp_num psn type in
    let pkt : Packet = record {
      opaque = 0;
      num_iov = 8;
      vnet_len = c.vnet_hdr;
      padcnt = 0;
      bth = blank;
      ext = no_ext;
      eth_len = 0;
      payload = [];
    } in
    let sent : Packet = record pkt {
      bth = bth;
      ext = aeth_ext (Aeth.set (record { u32_0 = 0 }) syndrome val r.msn);
      eth_len = 4;
    } in
    (
      answer r pkt bth syndrome val,
      rw (connected, memory, eq, netpkt_acknowledge) refl,
      (sent, refl, refl),
    )
