-- ===== src/Requester/Build.antt =====
-- requester.c: the packets of a work request on a reliable connection.
use libroce.Base.{
  ℕ, ◌+◌, ◌%◌, ◌==◌, List, [], ◌∷◌, Option, none, some, Bool, true, false, if◌then◌else◌, bit_and,
}
use libroce.Word.{sub32}
use libroce.Iov.{Iov}
use libroce.Psn.{psn_inc}
use libroce.Ib.Opcode
use libroce.Ib.Ieth
use libroce.Ib.Immdt
use libroce.Ib.Reth
use libroce.Netpkt.{set_bth}
use libroce.Sge.{Sge, sge_pages, sge_advance}
use libroce.Mr.Map.{map_sge}
use libroce.Wr.{SendWr, has, solicited, send_wr_is_inline, loc_qp_op_err}
use libroce.Requester.{
  Ext, no_ext, ieth_ext, immdt_ext, reth_ext, Packet, Ctx, Requester, Outcome, failed, done,
  netpkt_alloc, netpkt_pending_one, to_u32, mark, max_outgoing_packets,
}

-- The end of a message: its operation code, extended headers and their length.
pub record Ending : Type 0 where
  pub opcode : ℕ
  pub ext : Ext
  pub eth_len : ℕ

-- `ib_ieth_set_rkey` and its like, on the zeros of `roce_calloc`.
abbrev pub ieth_of : SendWr → Ext
ieth_of w = ieth_ext (Ieth.set_rkey (record { rkey = 0 }) w.imm_data)

abbrev pub immdt_of : SendWr → Immdt.Immdt
immdt_of w = Immdt.set_immdt (record { immdt = 0 }) w.imm_data

-- The three calls that fill the RETH of a write.
unfoldable pub reth_of : SendWr → ℕ → Reth.Reth
unfolding Reth.set_va Reth.set_rkey Reth.set_dmalen
reth_of w payload =
    let reth = Reth.set_va (record { va = 0; rkey = 0; dmalen = 0 }) w.remote_addr in
    let reth = Reth.set_rkey reth w.rkey in Reth.set_dmalen reth payload

unfoldable pub send_only_ending : SendWr → Bool → Bool → Ending
send_only_ending w inv imm =
    if inv
    then record { opcode = Opcode.send_only_with_invalidate; ext = ieth_of w; eth_len = 4 }
    else if imm
    then record {
      opcode = Opcode.send_only_with_immediate;
      ext = immdt_ext (immdt_of w);
      eth_len = 4;
    }
    else record { opcode = Opcode.send_only; ext = no_ext; eth_len = 0 }

unfoldable pub send_last_ending : SendWr → Bool → Bool → Ending
send_last_ending w inv imm =
    if inv
    then record { opcode = Opcode.send_last_with_invalidate; ext = ieth_of w; eth_len = 4 }
    else if imm
    then record {
      opcode = Opcode.send_last_with_immediate;
      ext = immdt_ext (immdt_of w);
      eth_len = 4;
    }
    else record { opcode = Opcode.send_last; ext = no_ext; eth_len = 0 }

unfoldable pub write_only_ending : SendWr → Bool → ℕ → Ending
unfolding reth_of
write_only_ending w imm payload =
    if imm
    then record {
      opcode = Opcode.rdma_write_only_with_immediate;
      ext = reth_ext (reth_of w payload) (some (immdt_of w));
      eth_len = 20;
    }
    else record {
      opcode = Opcode.rdma_write_only;
      ext = reth_ext (reth_of w payload) none;
      eth_len = 16;
    }

unfoldable pub write_last_ending : SendWr → Bool → Ending
write_last_ending w imm =
    if imm
    then record {
      opcode = Opcode.rdma_write_last_with_immediate;
      ext = immdt_ext (immdt_of w);
      eth_len = 4;
    }
    else record { opcode = Opcode.rdma_write_last; ext = no_ext; eth_len = 0 }

-- `(-payload) & 0x3`.
abbrev pub padding : ℕ → ℕ
padding payload = bit_and (sub32 0 payload) 3

module _ (c : Ctx) (s : Requester) (w : SendWr) where
  -- `roce_mr_map_sge` and the assertion that it used as many entries as were counted. Its result
  -- stands in a `uint32_t`, so the test of a negative one behind it never holds.
  unfoldable pub map_payload : List Sge → ℕ → Option (List (ℕ × List Iov))
  unfolding map_sge
  map_payload sges pages = elim (map_sge c.dma_map s.mrs s.pd s.qp_type sges true 0 false) [
    | none ↦ none
    | some (ret, written, _) ↦ if pages == to_u32 ret then some written else none
  ]

  -- The payload of a single packet.
  unfoldable pub only_payload : ℕ → ℕ → Option (List (ℕ × List Iov))
  unfolding send_wr_is_inline map_payload
  only_payload payload pages =
      if send_wr_is_inline w
      then some ((0, record { base = w.sge_address; len = payload } ∷ []) ∷ [])
      else map_payload w.sges pages

  unfoldable pub only_pages : Option ℕ
  unfolding send_wr_is_inline sge_pages
  only_pages = if send_wr_is_inline w then some 1 else sge_pages w.sges c.page_size

  -- `roce_rc_send_only` and `roce_rc_write_only` behind the choice of operation code and headers.
  unfoldable pub only : Ending → ℕ → Outcome
  unfolding only_pages netpkt_alloc mark only_payload set_bth netpkt_pending_one psn_inc
  only e payload = elim only_pages [
    | none ↦ failed
    | some pages ↦ elim (netpkt_alloc c 0 w.address pages (padding payload)) [
      | none ↦ done (mark s w loc_qp_op_err)
      | some pkt ↦ elim (only_payload payload pages) [
        | none ↦ failed
        | some written ↦
            elim (set_bth pkt.bth s.qp_type e.opcode (has w.send_flags solicited) (padding payload)
              s.dest_qp_num true s.psn) [
                | none ↦ failed
                | some bth ↦
                    done
                      (record (netpkt_pending_one s (record pkt {
                        bth = bth;
                        ext = e.ext;
                        eth_len = e.eth_len;
                        payload = written;
                      })) { psn = psn_inc s.psn })
              ]
      ]
    ]
  ]

  -- One packet of several: the `k`th, with the next `bytes` bytes from an element and an offset on.
  -- It returns the packet, and the element and offset of the byte behind it.
  unfoldable pub cut : ℕ → ℕ → ℕ → Ending → Bool → Bool → ℕ → ℕ → ℕ → ℕ → Option (Packet × ℕ × ℕ)
  unfolding sge_advance sge_pages netpkt_alloc map_payload set_bth
  cut k opaque padcnt e se ack psn bytes idx off = elim (sge_advance w.sges bytes idx off) [
    | none ↦ none
    | some picked ↦ elim (sge_pages picked.dst c.page_size) [
      | none ↦ none
      | some pages ↦ elim (netpkt_alloc c k opaque pages padcnt) [
        | none ↦ none
        | some pkt ↦ elim (set_bth pkt.bth s.qp_type e.opcode se padcnt s.dest_qp_num ack psn) [
          | none ↦ none
          | some bth ↦ elim (map_payload picked.dst pages) [
            | none ↦ none
            | some written ↦ some (
              record pkt { bth = bth; ext = e.ext; eth_len = e.eth_len; payload = written },
              idx + picked.passed,
              picked.off,
            )
          ]
        ]
      ]
    ]
  ]

-- `!(psn % ROCE_MAX_OUTGOING_PACKETS)`.
abbrev pub asks_ack : ℕ → Bool
asks_ack psn = psn % max_outgoing_packets == 0

abbrev pub plain : ℕ → Ending
plain opcode = record { opcode = opcode; ext = no_ext; eth_len = 0 }
