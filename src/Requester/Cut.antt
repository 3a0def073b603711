-- ===== src/Requester/Cut.antt =====
-- `roce_rc_send_multi` and `roce_rc_write_multi` cut a message into packets.
use Prim.{tt}
use libroce.Base.{
  ℕ, suc, ◌^◌, ◌≤◌, ◌<◌, ◌≡◌, ap, ◌∙◌, inl, inr, List, [], ◌∷◌, ◌++◌, none, some, Bool, true, false,
  Option-cases, length, drop, arith, append-nil, take-append-drop, length-drop, length-append,
}
use libroce.Word.{sub32}
use libroce.Ib.Opcode
use libroce.Netpkt.SetBth.{asked}
use libroce.Psn.{psn_inc}
use libroce.Psn.Order.{after, psn_inc_lem}
use libroce.Qp.{qp_type_to_ib}
use libroce.Requester.{netpkt_pending_multi, reth_ext, Packet, Ctx, Requester}
use libroce.Requester.Build.{
  Ending, cut, plain, asks_ack, padding, reth_of, send_last_ending, write_last_ending,
}
use libroce.Requester.Multi.{Middles, broken, looping, made, finish, multi, send_multi, write_multi}
use libroce.Requester.Piece.{rest, IsPlace, carried, IsPiece, cut-IsPiece}
use libroce.Requester.Message.{
  header, all_carried, middle_headers, AreMiddles, Right, middles-Right,
}
use libroce.Requester.Sends.{
  IsMessage, Sends, AreMapped-append, fields, size, take-all, all_carried-append,
}
use libroce.Wr.{SendWr, has, solicited}

module _ (c : Ctx) (s : Requester) (w : SendWr) (ib mtu : ℕ)
    (known : qp_type_to_ib s.qp_type ≡ some ib) (short : length w.sges < 2 ^ 32)
    (positive : 0 < mtu) (fits : mtu < 2 ^ 32) (place : IsPlace w 0 0) (psn_fits : s.psn < 2 ^ 24)
    (head last : Ending) (middle payload : ℕ) (head_fits : head.opcode < 2 ^ 5)
    (middle_fits : middle < 2 ^ 5) (last_fits : last.opcode < 2 ^ 5) (more : mtu < payload)
    (small : payload < 2 ^ 32) (full : length (rest w 0 0) ≡ payload) where
  message :
      (first : Packet) (idx off : ℕ) (pkts : List Packet) (psn' payload' idx' off' : ℕ)
      (pkt : Packet) (idx'' off'' : ℕ)
      → IsPiece c s w ib 0 0 head false (asks_ack s.psn) s.psn mtu 0 0 first idx off
      → AreMiddles c s w ib mtu middle
          (psn_inc s.psn)
          (sub32 payload mtu)
          idx
          off
          pkts
          psn'
          payload'
          idx'
          off'
      → IsPiece c s w ib w.address
          (padding payload')
          last
          (has w.send_flags solicited)
          true
          psn'
          payload'
          idx'
          off'
          pkt
          idx''
          off''
      → IsMessage c s w ib mtu head middle last payload (first ∷ pkts ++ pkt ∷ [])
  message first idx off pkts psn' payload' idx' off' pkt idx'' off'' one t end = record {
    n = length pkts;
    remained = payload';
    counted = omega (arith, t.counted);
    some_left = t.some_left;
    at_most = t.at_most;
    headers =
        fields header first pkts pkt one.header
          (t.headers
            ∙ ap (middle_headers ib middle s.dest_qp_num (length pkts)) (psn_inc_lem s.psn))
          (end.header
            ∙ ap
                (asked ib last.opcode (has w.send_flags solicited) (padding payload') s.dest_qp_num
                  true)
                (omega (arith, t.next_psn, psn_inc_lem s.psn)));
    parts = one.gs ∷ t.parts ++ end.gs ∷ [];
    mapped = (one.mapped, AreMapped-append c s pkts t.parts pkt end.gs t.mapped end.mapped);
    sizes =
        fields (λ gs. length (carried gs)) one.gs t.parts end.gs
          (size (rest w 0 0) one.carries full (omega arith)) t.sizes
          (size (rest w idx' off') end.carries t.full (omega arith));
    owners = fields (λ p. p.opaque) first pkts pkt one.ended t.silent end.ended;
    exts = fields (λ p. p.ext) first pkts pkt one.extended t.bare end.extended;
    bytes =
        ap (◌++◌ (carried one.gs)) (
          all_carried-append t.parts (end.gs ∷ [])
          ∙ ap (◌++◌ (all_carried t.parts)) (
              append-nil (carried end.gs)
              ∙ end.carries
              ∙ take-all payload' (rest w idx' off') (omega (arith, t.full)))
          ∙ t.bytes
          ∙ one.next)
        ∙ ap (λ xs. xs ++ drop mtu (rest w 0 0)) one.carries
        ∙ take-append-drop mtu (rest w 0 0);
  }

  finish-Sends :
      (first : Packet) (idx off : ℕ) (m : Middles)
      → IsPiece c s w ib 0 0 head false (asks_ack s.psn) s.psn mtu 0 0 first idx off
      → Right c s w ib mtu known short positive fits middle
          (psn_inc s.psn)
          (sub32 payload mtu)
          idx
          off
          m
      → Sends c s w ib mtu head middle last payload (finish c s w mtu last first m)
  unfolding finish netpkt_pending_multi
  finish-Sends first idx off broken one t = tt
  finish-Sends first idx off looping one t = t
  finish-Sends first idx off (made pkts psn' payload' idx' off') one t =
      elim (Option-cases (
        cut c s w (suc (length pkts)) w.address (padding payload') last (has w.send_flags solicited)
          true psn' payload' idx' off')) [
            | inl n ↦ rw (n, Sends, finish) tt
            | inr ((pkt, idx'', off''), found) ↦
                let end =
                  cut-IsPiece c s w ib known short (suc (length pkts)) w.address (padding payload')
                    last (has w.send_flags solicited) true psn' payload' idx' off' pkt idx'' off''
                    last_fits t.place t.some_left (omega (arith, t.at_most)) (omega (arith, t.full))
                    found in
                let e : psn_inc psn' ≡ after s.psn (length (first ∷ pkts ++ pkt ∷ [])) = omega (
                  arith,
                  psn_inc_lem psn',
                  psn_inc_lem s.psn,
                  t.next_psn,
                  length-append (first ∷ pkts) (pkt ∷ []),
                ) in
                rw (found, Sends, finish)
                  (
                    first ∷ pkts ++ pkt ∷ [],
                    ap
                        (λ n. record s {
                          pending = s.pending ++ (first ∷ pkts ++ pkt ∷ []);
                          psn = n;
                        })
                        e,
                    message first idx off pkts psn' payload' idx' off' pkt idx'' off'' one t end,
                  )
          ]

  multi-Sends :
      (fuel : ℕ)
      → payload ≤ fuel
      → Sends c s w ib mtu head middle last payload (multi c s w mtu fuel head middle last payload)
  unfolding multi
  multi-Sends fuel enough =
      elim (Option-cases (cut c s w 0 0 0 head false (asks_ack s.psn) s.psn mtu 0 0)) [
        | inl n ↦ rw (n, Sends, multi) tt
        | inr ((first, idx, off), found) ↦
            let one =
              cut-IsPiece c s w ib known short 0 0 0 head false (asks_ack s.psn) s.psn mtu 0 0 first
                idx off head_fits place positive fits (omega arith) found in
            rw (found, multi)
              (finish-Sends first idx off _ one (
                middles-Right c s w ib mtu known short positive fits middle fuel 1 (psn_inc s.psn)
                  (sub32 payload mtu) idx off middle_fits (omega (arith, psn_inc_lem s.psn))
                  one.place (omega arith) (omega arith) (omega arith)
                  (ap (length {A = ℕ}) one.next ∙ length-drop mtu (rest w 0 0) ∙ omega arith)))
      ]

send_last-lt : (w : SendWr) (inv imm : Bool) → (send_last_ending w inv imm).opcode < 2 ^ 5
unfolding send_last_ending
send_last-lt w true imm = omega arith
send_last-lt w false true = omega arith
send_last-lt w false false = omega arith

write_last-lt : (w : SendWr) (imm : Bool) → (write_last_ending w imm).opcode < 2 ^ 5
unfolding write_last_ending
write_last-lt w true = omega arith
write_last-lt w false = omega arith

-- The first packet of a write.
abbrev pub write_head : SendWr → ℕ → Ending
write_head w payload = record {
  opcode = Opcode.rdma_write_first;
  ext = reth_ext (reth_of w payload) none;
  eth_len = 16;
}

pub multi-Message :
    (c : Ctx) (s : Requester) (w : SendWr) (ib mtu payload fuel : ℕ) (inv imm : Bool)
    → qp_type_to_ib s.qp_type ≡ some ib
    → length w.sges < 2 ^ 32
    → 0 < mtu
    → mtu < 2 ^ 32
    → IsPlace w 0 0
    → s.psn < 2 ^ 24
    → mtu < payload
    → payload < 2 ^ 32
    → length (rest w 0 0) ≡ payload
    → payload ≤ fuel
    → Sends c s w ib mtu
        (plain Opcode.send_first)
        Opcode.send_middle
        (send_last_ending w inv imm)
        payload
        (send_multi c s w mtu fuel inv imm payload)
      × Sends c s w ib mtu
          (write_head w payload)
          Opcode.rdma_write_middle
          (write_last_ending w imm)
          payload
          (write_multi c s w mtu fuel imm payload)
unfolding send_multi write_multi
multi-Message c s w ib mtu payload fuel inv imm known short positive fits place psn_fits more small
      full enough =
    (
      multi-Sends c s w ib mtu known short positive fits place psn_fits (plain Opcode.send_first)
          (send_last_ending w inv imm) Opcode.send_middle payload (omega arith) (omega arith)
          (send_last-lt w inv imm) more small full fuel enough,
      multi-Sends c s w ib mtu known short positive fits place psn_fits (write_head w payload)
          (write_last_ending w imm) Opcode.rdma_write_middle payload (omega arith) (omega arith)
          (write_last-lt w imm) more small full fuel enough,
    )
