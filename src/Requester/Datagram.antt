-- ===== src/Requester/Datagram.antt =====
-- requester.c: the work requests of a datagram queue pair, each of which is one packet. The
-- callback that releases mapped memory is not modelled.
use libroce.Base.{
  ℕ, ◌==◌, ltb, [], ◌∷◌, ◌++◌, Option, none, some, Bool, true, false, ◌||◌, not, if◌then◌else◌,
}
use libroce.Psn.{psn_inc}
use libroce.Ib.Opcode
use libroce.Ib.Deth
use libroce.Netpkt.{set_bth}
use libroce.Ah.{Ahs, get_ah, put_ah}
use libroce.Wr.{
  SendWr, send, send_with_imm, has, signaled, solicited, loc_len_err, loc_qp_op_err,
  send_wr_opcode_to_wc,
}
use libroce.Requester.{deth_ext, Ctx, Requester, get_mtu, netpkt_alloc}
use libroce.Requester.Build.{Ending, immdt_of, padding, only_pages, only_payload}
use libroce.Requester.Multi.{payload_len}
use libroce.Requester.Queue.{free_send_wr}

-- What `roce_ud_send_pkt` leaves: the queue pair, the address handles, and `error` of the work
-- request.
pub record Datagram : Type 0 where
  pub requester : Requester
  pub ahs : Ahs
  pub error : ℕ

-- The two calls that fill the DETH.
unfoldable pub deth_of : Requester → SendWr → Deth.Deth
unfolding Deth.set_qkey Deth.set_srcqp
deth_of s w = Deth.set_srcqp (Deth.set_qkey (record { qkey = 0; u32_1 = 0 }) w.remote_qkey) s.handle

unfoldable pub ud_ending : Requester → SendWr → Bool → Ending
unfolding deth_of
ud_ending s w imm =
    if imm
    then record {
      opcode = Opcode.send_only_with_immediate;
      ext = deth_ext (deth_of s w) (some (immdt_of w));
      eth_len = 12;
    }
    else record { opcode = Opcode.send_only; ext = deth_ext (deth_of s w) none; eth_len = 8 }

module _ (c : Ctx) (s : Requester) (w : SendWr) where
  -- From the allocation of the packet to its transmission: the queue pair and `error`.
  unfoldable pub ud_packet : Ending → ℕ → Option (Requester × ℕ)
  unfolding only_pages netpkt_alloc only_payload set_bth psn_inc
  ud_packet e payload = elim (only_pages c s w) [
    | none ↦ none
    | some pages ↦ elim (netpkt_alloc c 0 w.address pages (padding payload)) [
      | none ↦ some (s, loc_qp_op_err)
      | some pkt ↦ elim (only_payload c s w payload pages) [
        | none ↦ none
        | some written ↦
            elim (set_bth pkt.bth s.qp_type e.opcode (has w.send_flags solicited) (padding payload)
              w.remote_qpn true s.psn) [
                | none ↦ none
                | some bth ↦ some (
                  record s {
                    psn = psn_inc s.psn;
                    sent =
                        s.sent
                        ++ record pkt {
                          bth = bth;
                          ext = e.ext;
                          eth_len = e.eth_len;
                          payload = written;
                        }
                          ∷ [];
                  },
                  w.error,
                )
              ]
      ]
    ]
  ]

  -- `roce_ud_send_pkt`.
  unfoldable pub ud_send_pkt : Ahs → Bool → ℕ → Option Datagram
  unfolding get_ah put_ah ud_packet ud_ending
  ud_send_pkt ahs imm payload = elim (get_ah ahs w.ah) [
    | none ↦ none
    | some (p, ahs') ↦
        if p == 0
        then some (record { requester = s; ahs = ahs; error = w.error })
        else elim (ud_packet (ud_ending s w imm) payload) [
          | none ↦ none
          | some (s', error) ↦ elim (put_ah ahs' w.ah) [
            | none ↦ none
            | some (_, ahs'') ↦ some (record { requester = s'; ahs = ahs''; error = error })
          ]
        ]
  ]

-- `roce_free_send_wr` at the end.
abbrev pub ud_freed : SendWr → Datagram → Requester → Option Datagram
ud_freed w d s = elim (free_send_wr s w) [
  | none ↦ none
  | some s' ↦ some (record d { requester = s' })
]

-- From the label `done` on: the completion, and the end of the work request.
unfoldable pub ud_done : SendWr → ℕ → Datagram → Option Datagram
unfolding send_wr_opcode_to_wc free_send_wr
ud_done w byte_len d =
    let s = d.requester in
    if s.sq_sig_all || has w.send_flags signaled || not (d.error == 0)
    then (elim (send_wr_opcode_to_wc w.opcode) [
      | none ↦ none
      | some (opcode, flags) ↦ ud_freed w d (record s {
        completed =
            s.completed
            ++ record {
              wr_id = w.wr_id;
              status = d.error;
              opcode = opcode;
              byte_len = byte_len;
              local_qpn = s.handle;
              remote_qpn = s.dest_qp_num;
              imm_data = 0;
              wc_flags = flags;
            }
              ∷ [];
      })
    ])
    else ud_freed w d s

-- The call of `roce_ud_send_pkt`, and what follows it.
unfoldable pub ud_sending : Ctx → Requester → Ahs → SendWr → Bool → ℕ → Option Datagram
unfolding ud_send_pkt ud_done
ud_sending c s ahs w imm payload = elim (ud_send_pkt c s w ahs imm payload) [
  | none ↦ none
  | some d ↦ ud_done w payload d
]

-- `roce_request_ud`; `none` is a failed assertion.
unfoldable pub request_ud : Ctx → Requester → Ahs → SendWr → Option Datagram
unfolding payload_len get_mtu ud_sending ud_done
request_ud c s ahs w =
    let idle : Datagram = record { requester = s; ahs = ahs; error = w.error } in
    if not (w.error == 0) then ud_done w 0 idle else elim (payload_len 0 c s w) [
      | none ↦ none
      | some payload ↦
          if ltb (get_mtu c s) payload
          then ud_done w 0 (record idle { error = loc_len_err })
          else elim w.opcode [
            | send_with_imm ↦ ud_sending c s ahs w true payload
            | send ↦ ud_sending c s ahs w false payload
            | _ ↦ ud_done w 0 (record idle { error = loc_qp_op_err })
          ]
    ]
