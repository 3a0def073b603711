-- ===== src/Requester/Request.antt =====
-- `roce_request_rc`: from the choice of the message's form to the queues.
use libroce.Base.{
  ℕ, ◌+◌, ◌^◌, ◌==◌, ◌<◌, ◌≤◌, ◌≡◌, refl, sym, ◌∙◌, subst, some, Bool, true, false, ◌&&◌, arith,
  length, leb, when_true, when_false, ◌||◌, not,
}
use libroce.Ib.Opcode
use libroce.Qp.{qp_type_to_ib}
use libroce.Requester.{Ctx, Requester, Outcome, done, get_mtu}
use libroce.Requester.Build.{plain, send_last_ending, write_last_ending}
use libroce.Requester.Multi.{
  payload_len, send_pkts, write_pkts, send_multi, write_multi, build_pkts,
}
use libroce.Requester.Piece.{rest, IsPlace}
use libroce.Requester.Cut.{multi-Message, write_head}
use libroce.Requester.Sends.{Sends}
use libroce.Requester.Queue.{start, request_rc}
use libroce.Requester.Window.{queued}
use libroce.Requester.Live.{IsLive}
use libroce.Requester.Joined.{CanEnd, Joins, with_wr, Sends-Joins}
use libroce.Wr.{
  SendWr, WrOpcode, send, send_with_imm, send_with_inv, rdma_write, rdma_write_with_imm, rdma_read,
  atomic_cmp_and_swp, atomic_fetch_and_add, atomic_write, flush, local_inv, reg_mr, bind_mw,
  opcode_max, send_wr_is_inline, send_wr_is_local,
}

-- The operations that `roce_rc_build_pkts` makes packets for.
abbrev pub is_message : WrOpcode → Bool
is_message send = true
is_message send_with_imm = true
is_message send_with_inv = true
is_message rdma_write = true
is_message rdma_write_with_imm = true
is_message opcode = false

module _ (c : Ctx) (s : Requester) (w : SendWr) (ib fuel : ℕ)
    (known : qp_type_to_ib s.qp_type ≡ some ib) (live : IsLive s) (ends : CanEnd s w)
    (outside : send_wr_is_inline w ≡ false) (short : length w.sges < 2 ^ 32) (place : IsPlace w 0 0)
    (full : length (rest w 0 0) ≡ ends.reported.len) (positive : 0 < get_mtu c s)
    (more : get_mtu c s < ends.reported.len)
    (straight : s.sq_psn + length (queued s) + ends.reported.len < 2 ^ 24)
    (small : length (queued s) + ends.reported.len < 2 ^ 22)
    (enough : ends.reported.len ≤ fuel) where
  counted : payload_len fuel c (with_wr s w) w ≡ some ends.reported.len
  unfolding payload_len
  counted = when_false (send_wr_is_inline w) _ _ outside ∙ ends.reported.has_len

  past : leb ends.reported.len (get_mtu c s) ≡ false
  past = ground arith

  send_pkts_lem :
      (inv imm : Bool)
      → (inv && imm) ≡ false
      → send_pkts fuel c (with_wr s w) w inv imm
        ≡ send_multi c (with_wr s w) w (get_mtu c s) fuel inv imm ends.reported.len
  unfolding send_pkts get_mtu
  send_pkts_lem inv imm e = rw (e, counted, past, outside, send_pkts) refl

  write_pkts_lem :
      (imm : Bool)
      → write_pkts fuel c (with_wr s w) w imm
        ≡ write_multi c (with_wr s w) w (get_mtu c s) fuel imm ends.reported.len
  unfolding write_pkts get_mtu
  write_pkts_lem imm = rw (counted, past, write_pkts) refl

  both :
      (inv imm : Bool)
      → Sends c
          (with_wr s w)
          w
          ib
          (get_mtu c s)
          (plain Opcode.send_first)
          Opcode.send_middle
          (send_last_ending w inv imm)
          ends.reported.len
          (send_multi c (with_wr s w) w (get_mtu c s) fuel inv imm ends.reported.len)
        × Sends c
            (with_wr s w)
            w
            ib
            (get_mtu c s)
            (write_head w ends.reported.len)
            Opcode.rdma_write_middle
            (write_last_ending w imm)
            ends.reported.len
            (write_multi c (with_wr s w) w (get_mtu c s) fuel imm ends.reported.len)
  both inv imm =
      multi-Message c (with_wr s w) w ib (get_mtu c s) ends.reported.len fuel inv imm known short
        positive (omega arith) place (omega (arith, live.order.next)) more (omega arith) full enough

  send-Joins :
      (inv imm : Bool)
      → (inv && imm) ≡ false
      → Joins s w (start (send_pkts fuel c (with_wr s w) w inv imm))
  send-Joins inv imm e =
      subst (λ o. Joins s w (start o)) (sym (send_pkts_lem inv imm e))
        (Sends-Joins c s w ib (get_mtu c s) ends.reported.len (plain Opcode.send_first)
          (send_last_ending w inv imm) Opcode.send_middle live ends positive straight small _
          (both inv imm).0)

  write-Joins : (imm : Bool) → Joins s w (start (write_pkts fuel c (with_wr s w) w imm))
  write-Joins imm =
      subst (λ o. Joins s w (start o)) (sym (write_pkts_lem imm))
        (Sends-Joins c s w ib (get_mtu c s) ends.reported.len (write_head w ends.reported.len)
          (write_last_ending w imm) Opcode.rdma_write_middle live ends positive straight small _
          (both false imm).1)

  -- `build_pkts` behind its first test.
  abbrev by_opcode : WrOpcode → Outcome
  by_opcode send_with_imm = send_pkts fuel c (with_wr s w) w false true
  by_opcode send_with_inv = send_pkts fuel c (with_wr s w) w true false
  by_opcode send = send_pkts fuel c (with_wr s w) w false false
  by_opcode rdma_write_with_imm = write_pkts fuel c (with_wr s w) w true
  by_opcode rdma_write = write_pkts fuel c (with_wr s w) w false
  by_opcode opcode = done (with_wr s w)

  built : build_pkts fuel c (with_wr s w) w ≡ by_opcode w.opcode
  unfolding build_pkts
  built = rw (outside, build_pkts) refl

  by_opcode-Joins : (op : WrOpcode) → is_message op ≡ true → Joins s w (start (by_opcode op))
  by_opcode-Joins send e = send-Joins false false refl
  by_opcode-Joins send_with_imm e = send-Joins false true refl
  by_opcode-Joins send_with_inv e = send-Joins true false refl
  by_opcode-Joins rdma_write e = write-Joins false
  by_opcode-Joins rdma_write_with_imm e = write-Joins true
  by_opcode-Joins rdma_read e = cc
  by_opcode-Joins atomic_cmp_and_swp e = cc
  by_opcode-Joins atomic_fetch_and_add e = cc
  by_opcode-Joins atomic_write e = cc
  by_opcode-Joins flush e = cc
  by_opcode-Joins local_inv e = cc
  by_opcode-Joins reg_mr e = cc
  by_opcode-Joins bind_mw e = cc
  by_opcode-Joins opcode_max e = cc

  no_error : (a : Bool) (n : ℕ) → (a || not (n == 0)) ≡ false → (n == 0) ≡ true
  no_error a n e = ground arith

  request : is_message w.opcode ≡ true → Joins s w (request_rc fuel c s w)
  unfolding request_rc
  request message =
      subst (λ o. Joins s w (start o))
        (sym
          (when_true (w.error == 0) _ _ (no_error (send_wr_is_local w) w.error ends.stays) ∙ built))
        (by_opcode-Joins w.opcode message)

-- For a queue pair whose type has a number in operation codes, with its packets in order and of its
-- work requests, in a window that is full or holds them all; and a send or a write, not inline,
-- without error and not null, whose less than 2 ^ 32 elements of lengths that fit 32 digits and
-- that do not go round at 2 ^ 64 hold more bytes than the MTU, which is positive, that has a
-- completion and whose references can be put back behind those of the work requests before it: with
-- fuel for as many rounds as bytes, and where as many numbers and packets more as there are bytes
-- stay below 2 ^ 24 and 2 ^ 22, `roce_request_rc` ends, and unless an assertion fails or memory
-- lacks it leaves such a queue pair again, which owes the completions that it owed and, where one
-- is asked for, that of the new work request behind them.
pub request_rc-Joins :
    (c : Ctx) (s : Requester) (w : SendWr) (ib fuel : ℕ) (ends : CanEnd s w)
    → qp_type_to_ib s.qp_type ≡ some ib
    → IsLive s
    → is_message w.opcode ≡ true
    → send_wr_is_inline w ≡ false
    → length w.sges < 2 ^ 32
    → IsPlace w 0 0
    → length (rest w 0 0) ≡ ends.reported.len
    → 0 < get_mtu c s
    → get_mtu c s < ends.reported.len
    → s.sq_psn + length (queued s) + ends.reported.len < 2 ^ 24
    → length (queued s) + ends.reported.len < 2 ^ 22
    → ends.reported.len ≤ fuel
    → Joins s w (request_rc fuel c s w)
request_rc-Joins c s w ib fuel ends known live message outside short place full positive more
      straight small enough =
    request c s w ib fuel known live ends outside short place full positive more straight small
      enough message
