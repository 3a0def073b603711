-- ===== src/Requester/Multi.antt =====
-- requester.c: the messages of several packets, and the choice among the forms of a message.
use libroce.Base.{
  ℕ, zero, suc, ◌*◌, ltb, leb, List, [], ◌∷◌, ◌++◌, Option, none, some, Bool, true, false, ◌&&◌,
  if◌then◌else◌, length,
}
use libroce.Word.{u32, sub32}
use libroce.Psn.{psn_inc}
use libroce.Ib.Opcode
use libroce.Sge.{sge_len}
use libroce.Wr.{
  SendWr, send, send_with_imm, send_with_inv, rdma_write, rdma_write_with_imm, has, solicited,
  send_wr_is_inline, loc_len_err,
}
use libroce.Requester.{
  reth_ext, Packet, Ctx, Requester, Outcome, failed, endless, done, get_mtu, netpkt_pending_multi,
  mark,
}
use libroce.Requester.Build.{
  Ending, reth_of, send_only_ending, send_last_ending, write_only_ending, write_last_ending,
  padding, only, cut, asks_ack, plain,
}

-- What the loop over the packets in the middle leaves.
pub data Middles : Type 0 where
  broken looping : Middles
  made : List Packet → (psn payload idx off : ℕ) → Middles

abbrev pub in_front : Packet → Middles → Middles
in_front pkt (made pkts psn payload idx off) = made (pkt ∷ pkts) psn payload idx off
in_front pkt m = m

module _ (c : Ctx) (s : Requester) (w : SendWr) (mtu : ℕ) where
  -- `while (payload > mtu)`, from the `k`th packet on.
  unfoldable pub middles : ℕ → ℕ → ℕ → ℕ → ℕ → ℕ → ℕ → Middles
  unfolding cut psn_inc
  middles opcode zero k psn payload idx off =
      if ltb mtu payload then looping else made [] psn payload idx off
  middles opcode (suc fuel) k psn payload idx off =
      if ltb mtu payload
      then (elim (cut c s w k 0 0 (plain opcode) false (asks_ack psn) psn mtu idx off) [
        | none ↦ broken
        | some (pkt, idx', off') ↦
            in_front pkt (middles opcode fuel (suc k) (psn_inc psn) (sub32 payload mtu) idx' off')
      ])
      else made [] psn payload idx off

  -- The last packet, and the queue with all of them.
  unfoldable pub finish : Ending → Packet → Middles → Outcome
  unfolding cut psn_inc netpkt_pending_multi
  finish last first broken = failed
  finish last first looping = endless
  finish last first (made pkts psn payload idx off) =
      elim (cut c s w (suc (length pkts)) w.address (padding payload) last
        (has w.send_flags solicited) true psn payload idx off) [
          | none ↦ failed
          | some (pkt, _, _) ↦
              done
                (record (netpkt_pending_multi s (first ∷ pkts ++ pkt ∷ [])) { psn = psn_inc psn })
        ]

  -- `roce_rc_send_multi` and `roce_rc_write_multi`: the first packet, those in the middle, the
  -- last.
  unfoldable pub multi : ℕ → Ending → ℕ → Ending → ℕ → Outcome
  unfolding cut psn_inc middles finish
  multi fuel head middle last payload =
      elim (cut c s w 0 0 0 head false (asks_ack s.psn) s.psn mtu 0 0) [
        | none ↦ failed
        | some (first, idx, off) ↦
            finish last first (middles middle fuel 1 (psn_inc s.psn) (sub32 payload mtu) idx off)
      ]

  unfoldable pub send_multi : ℕ → Bool → Bool → ℕ → Outcome
  unfolding multi send_last_ending
  send_multi fuel inv imm payload =
      multi fuel (plain Opcode.send_first) Opcode.send_middle (send_last_ending w inv imm) payload

  unfoldable pub write_multi : ℕ → Bool → ℕ → Outcome
  unfolding multi write_last_ending reth_of
  write_multi fuel imm payload =
      multi fuel
        (record {
          opcode = Opcode.rdma_write_first;
          ext = reth_ext (reth_of w payload) none;
          eth_len = 16;
        })
        Opcode.rdma_write_middle (write_last_ending w imm) payload

module _ (fuel : ℕ) (c : Ctx) (s : Requester) (w : SendWr) where
  -- `payload` of the two functions below; `sizeof(roce_sge)` is 16.
  unfoldable pub payload_len : Option ℕ
  unfolding send_wr_is_inline sge_len
  payload_len = if send_wr_is_inline w then some (u32 (16 * length w.sges)) else sge_len w.sges 0 0

  unfoldable pub send_pkts : Bool → Bool → Outcome
  unfolding payload_len get_mtu only send_only_ending send_multi send_wr_is_inline
  send_pkts inv imm = if inv && imm then failed else elim payload_len [
    | none ↦ failed
    | some payload ↦
        if leb payload (get_mtu c s)
        then only c s w (send_only_ending w inv imm) payload
        else if send_wr_is_inline w
        then failed
        else send_multi c s w (get_mtu c s) fuel inv imm payload
  ]

  unfoldable pub write_pkts : Bool → Outcome
  unfolding payload_len get_mtu only write_only_ending write_multi
  write_pkts imm = elim payload_len [
    | none ↦ failed
    | some payload ↦
        if leb payload (get_mtu c s)
        then only c s w (write_only_ending w imm payload) payload
        else write_multi c s w (get_mtu c s) fuel imm payload
  ]

  -- `roce_rc_build_pkts`, for an operation that is not one of the five without effect.
  unfoldable pub build_pkts : Outcome
  unfolding send_wr_is_inline mark send_pkts write_pkts
  build_pkts =
      if send_wr_is_inline w && ltb s.max_inline_data (u32 (16 * length w.sges))
      then done (mark s w loc_len_err)
      else elim w.opcode [
        | send_with_imm ↦ send_pkts false true
        | send_with_inv ↦ send_pkts true false
        | send ↦ send_pkts false false
        | rdma_write_with_imm ↦ write_pkts true
        | rdma_write ↦ write_pkts false
        | _ ↦ done s
      ]
