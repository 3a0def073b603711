-- ===== src/Tests/Requester.antt =====
-- A work request of ten bytes at an MTU of four.
use Prim.{tt}
use libroce.Base.{
  map, ℕ, suc, ◌+◌, ◌*◌, ◌^◌, ◌<◌, ◌≡◌, ◌⊎◌, refl, List, [], ◌∷◌, none, some, false, true, arith,
}
use libroce.Ib.Opcode
use libroce.Word.{bswap32, bswap16}
use libroce.Iov.{Iov}
use libroce.Iov.Span.{total}
use libroce.Psn.Order.{after}
use libroce.Qp.{rc, qp_type_to_ib}
use libroce.Wr.{SendWr, send}
use libroce.Requester.{no_ext, Packet, Ctx, Requester, Outcome, failed, endless, done, netpkt_psn}
use libroce.Requester.Multi.{send_multi}
use libroce.Requester.Queue.{xmit_pkts, handle_ack}
use libroce.Requester.Sends.{Sends}
use libroce.Requester.Window.{InOrder, Sent, xmit_pkts-Sent, xmit_pkts-none}
use libroce.Requester.Acks.{Shifts}
use libroce.Requester.Handled.{handle_ack-Shifts}
use libroce.Tests.Mr.{regions, table, element}

abbrev pub ctx : Ctx
ctx = record {
  page_size = 4096;
  vnet_hdr = 12;
  active_mtu = 1024;
  dma_map = λ a n. a;
  memory = λ k. true;
}

abbrev pub qp : Requester
qp = record {
  handle = 2;
  qp_type = rc;
  pd = 9;
  sq_sig_all = true;
  dest_qp_num = 3;
  path_mtu = 4;
  max_inline_data = 64;
  sq_psn = 100;
  psn = 100;
  pending = [];
  outgoing = [];
  wrs = [];
  pds = record { objects = record { table = table; ref = λ p. 1 }; pd_ctx = λ p. 0 };
  mrs = regions;
  sent = [];
  completed = [];
}

abbrev pub wr : SendWr
wr = record {
  address = 500;
  sge_address = 600;
  error = 0;
  mapped = true;
  wr_id = 1;
  opcode = send;
  send_flags = 2;
  imm_data = 0;
  remote_addr = 0;
  rkey = 0;
  remote_qpn = 0;
  remote_qkey = 0;
  ah = 0;
  sges = element ∷ [];
}

pub known : qp_type_to_ib rc ≡ some 0
unfolding qp_type_to_ib
known = refl

abbrev paid : List (ℕ × List Iov) → ℕ
paid [] = 0
paid ((at, vs) ∷ more) = total vs + paid more

abbrev sizes : Outcome → List ℕ
sizes failed = []
sizes endless = []
sizes (done s) = map (λ pkt. paid pkt.payload) s.pending

three_packets : sizes (send_multi ctx qp wr 4 10 false true 10) ≡ 4 ∷ 4 ∷ 2 ∷ []
unfolding send_multi
three_packets = refl

-- A packet with the sequence number `n`, which is less than 256.
abbrev pub numbered : ℕ → Packet
numbered n = record {
  opaque = 0;
  num_iov = 9;
  vnet_len = 0;
  padcnt = 0;
  bth = record { opcode = 0; flags = 0; pkey = 0; u32_1 = 0; u32_2 = n * 2 ^ 24 };
  ext = no_ext;
  eth_len = 0;
  payload = [];
}

abbrev busy : Requester
busy = record qp { psn = 102; outgoing = numbered 100 ∷ []; pending = numbered 101 ∷ [] }

busy-InOrder : InOrder busy
unfolding netpkt_psn bswap32 bswap16
busy-InOrder = record { row = (refl, (refl, tt)); next = refl; fits = omega arith }

xmit_pkts-Sent_example : Sent busy (xmit_pkts busy)
xmit_pkts-Sent_example = xmit_pkts-Sent busy busy-InOrder (omega arith) (omega arith)

handle_ack-Shifts_example :
    ((m : ℕ)
      → m < 1
      → Shifts (suc m) busy (handle_ack busy (after 100 m))
        × ((s' : Requester) → handle_ack busy (after 100 m) ≡ some s' → InOrder s'))
    × ((psn k : ℕ)
        → 0 < k
        → k < 2 ^ 22
        → (100 ≡ after psn k) ⊎ (psn ≡ after 102 k)
        → handle_ack busy psn ≡ some busy)
handle_ack-Shifts_example = handle_ack-Shifts busy busy-InOrder (omega arith)

-- The last sequence number and the one behind it, zero.
abbrev crossing : Requester
crossing = record qp {
  sq_psn = 16777215;
  psn = 1;
  outgoing =
      record (numbered 0) {
        bth = record { opcode = 0; flags = 0; pkey = 0; u32_1 = 0; u32_2 = 0xffffff00 };
      }
      ∷ [];
  pending = numbered 0 ∷ [];
}

crossing-InOrder : InOrder crossing
unfolding netpkt_psn bswap32 bswap16
crossing-InOrder = record { row = (refl, (refl, tt)); next = refl; fits = omega arith }

xmit_pkts-none_example : xmit_pkts crossing ≡ none
xmit_pkts-none_example =
    xmit_pkts-none crossing crossing-InOrder (λ e. cc) (omega arith) (omega arith) (omega arith)
