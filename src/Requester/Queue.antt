-- ===== src/Requester/Queue.antt =====
-- requester.c: the queues of packets that wait and that are on their way, acknowledgements, and
-- the end of work requests.
use libroce.Base.{
  ℕ, ◌+◌, ◌==◌, ltb, List, [], ◌∷◌, ◌++◌, Option, none, some, ℤ, true, false, ◌||◌, not,
  if◌then◌else◌, bit_and,
}
use libroce.Word.{u32, sub32}
use libroce.Psn.{psn_inc, compare_psn, is_positive, is_negative, is_zero}
use libroce.Ib.Bth.{psn_mask}
use libroce.Sge.{sge_len}
use libroce.Mr.Life.{put_mrs}
use libroce.Wr.{SendWr, success, has, signaled, send_wr_is_local, send_wr_opcode_to_wc}
use libroce.Requester.{
  Packet, Ctx, Requester, Outcome, failed, endless, done, netpkt_psn, max_outgoing_packets,
}
use libroce.Requester.Multi.{build_pkts}

-- `list_tail`.
abbrev pub tail_packet : List Packet → Option Packet
tail_packet [] = none
tail_packet (pkt ∷ []) = some pkt
tail_packet (pkt ∷ pkt' ∷ pkts) = tail_packet (pkt' ∷ pkts)

-- The test that ends the transmission: how far the window's end is ahead of a packet.
abbrev pub window_left : Requester → Packet → ℤ
window_left s pkt = compare_psn (u32 (s.sq_psn + max_outgoing_packets)) (netpkt_psn pkt)

-- `roce_netpkt_outgoing` of the packet at the head of `pending`, and its transmission.
unfoldable pub netpkt_outgoing : Requester → Packet → List Packet → Requester
netpkt_outgoing s pkt later = record s {
  pending = later;
  outgoing = s.outgoing ++ pkt ∷ [];
  sent = s.sent ++ pkt ∷ [];
}

-- The loop of `roce_xmit_pkts` over the packets that wait.
unfoldable pub xmit_pending : Requester → List Packet → Requester
unfolding netpkt_outgoing compare_psn netpkt_psn
xmit_pending s [] = s
xmit_pending s (pkt ∷ pkts) =
    let s' = netpkt_outgoing s pkt pkts in
    let rest = xmit_pending s' pkts in if is_zero (window_left s pkt) then s' else rest

-- `roce_xmit_pkts`; `none` is a failed assertion.
unfoldable pub xmit_pkts : Requester → Option Requester
unfolding xmit_pending compare_psn netpkt_psn
xmit_pkts s = elim (tail_packet s.outgoing) [
  | none ↦ some (xmit_pending s s.pending)
  | some pkt ↦
      if ltb (netpkt_psn pkt) s.sq_psn || ltb s.psn (netpkt_psn pkt)
      then none
      else if is_negative (window_left s pkt)
      then none
      else if is_zero (window_left s pkt)
      then some s
      else some (xmit_pending s s.pending)
]

-- `roce_complete_head`: the work requests at the head that are local or have failed are taken off.
unfoldable pub complete_wrs : List SendWr → List SendWr
unfolding send_wr_is_local
complete_wrs [] = []
complete_wrs (w ∷ ws) =
    let rest = complete_wrs ws in if send_wr_is_local w || not (w.error == 0) then rest else w ∷ ws

unfoldable pub complete_head : Requester → Requester
unfolding complete_wrs
complete_head s = record s { wrs = complete_wrs s.wrs }

-- `roce_free_send_wr`.
unfoldable pub free_send_wr : Requester → SendWr → Option Requester
unfolding put_mrs
free_send_wr s w =
    if w.mapped
    then (elim (put_mrs s.pds s.mrs w.sges) [
      | none ↦ none
      | some (pds, mrs) ↦ some (record s { pds = pds; mrs = mrs })
    ])
    else some s

-- The completion of the work request `w`, where one is asked for.
unfoldable pub report : Requester → SendWr → Option Requester
unfolding sge_len send_wr_opcode_to_wc
report s w =
    if s.sq_sig_all || has w.send_flags signaled
    then (elim (sge_len w.sges 0 0) [
      | none ↦ none
      | some len ↦ elim (send_wr_opcode_to_wc w.opcode) [
        | none ↦ none
        | some (opcode, flags) ↦ some (record s {
          completed =
              s.completed
              ++ record {
                wr_id = w.wr_id;
                status = success;
                opcode = opcode;
                byte_len = len;
                local_qpn = s.handle;
                remote_qpn = s.dest_qp_num;
                imm_data = 0;
                wc_flags = flags;
              }
                ∷ [];
        })
      ]
    ])
    else some s

-- Behind the increment of `sq_psn`, for a packet that ends a work request.
unfoldable pub complete_owner : Requester → Packet → Option Requester
unfolding report free_send_wr complete_head
complete_owner s pkt = elim s.wrs [
  | [] ↦ none
  | w ∷ ws ↦
      if w.address == pkt.opaque
      then (elim (report (record s { wrs = ws }) w) [
        | none ↦ none
        | some s' ↦ elim (free_send_wr s' w) [ none ↦ none | some s'' ↦ some (complete_head s'') ]
      ])
      else none
]

unfoldable pub rc_complete_send_wr : Requester → Packet → Option Requester
unfolding complete_head psn_inc complete_owner
rc_complete_send_wr s pkt =
    let s' = record (complete_head s) { sq_psn = psn_inc s.sq_psn } in
    if pkt.opaque == 0 then some s' else complete_owner s' pkt

-- The loop of `roce_handle_ack` over the packets on their way.
unfoldable pub acked : Requester → List Packet → ℕ → Option Requester
unfolding compare_psn netpkt_psn rc_complete_send_wr
acked s [] psn = some s
acked s (pkt ∷ pkts) psn = elim (is_positive (compare_psn (netpkt_psn pkt) psn)) [
  | true ↦ some s
  | false ↦ elim (rc_complete_send_wr (record s { outgoing = pkts }) pkt) [
    | none ↦ none
    | some s' ↦ acked s' pkts psn
  ]
]

unfoldable pub handle_ack : Requester → ℕ → Option Requester
unfolding compare_psn acked
handle_ack s psn =
    if is_positive (compare_psn s.sq_psn psn)
    then some s
    else if is_negative (compare_psn s.psn psn)
    then some s
    else acked s s.outgoing psn

-- `roce_handle_nak`: what is on its way is sent again.
unfoldable pub handle_nak : Requester → ℕ → Option Requester
unfolding handle_ack xmit_pkts
handle_nak s psn = elim (handle_ack s (bit_and (sub32 psn 1) psn_mask)) [
  | none ↦ none
  | some s' ↦ xmit_pkts (record s' { sent = s'.sent ++ s'.outgoing })
]

-- `ib_aeth_syndrome_type`, with the one that the requester does not answer.
pub data Syndrome : Type 0 where
  ack nak other : Syndrome

unfoldable pub handle_acknowledge : Requester → Syndrome → ℕ → Option Requester
unfolding handle_ack handle_nak xmit_pkts
handle_acknowledge s ack psn = elim (handle_ack s psn) [ none ↦ none | some s' ↦ xmit_pkts s' ]
handle_acknowledge s nak psn = handle_nak s psn
handle_acknowledge s other psn = some s

-- Behind the packets of a new work request.
unfoldable pub start : Outcome → Outcome
unfolding xmit_pkts complete_head
start failed = failed
start endless = endless
start (done s) = elim (xmit_pkts s) [ none ↦ failed | some s' ↦ done (complete_head s') ]

-- `roce_request_rc`.
unfoldable pub request_rc : ℕ → Ctx → Requester → SendWr → Outcome
unfolding build_pkts start
request_rc fuel c s w =
    let queued = record s { wrs = s.wrs ++ w ∷ [] } in
    start (if w.error == 0 then build_pkts fuel c queued w else done queued)
