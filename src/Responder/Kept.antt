-- ===== src/Responder/Kept.antt =====
-- What the payload of a request leaves alone: the number of the next packet, and whether a gap has
-- been answered.
use Prim.{tt}
use libroce.Base.{
  ℕ, ◌+◌, ◌==◌, ltb, ◌≡◌, List, Option, none, some, ℤ, Bool, true, false, ◌>>=◌, if◌then◌else◌, not,
  Bool-cases, Option-cases, arith, efault, eagain, inl, inr,
}
use libroce.Word.{u32}
use libroce.Iov.{Iov, iov_len}
use libroce.Ib.Reth.{Reth}
use libroce.Ib.Immdt
use libroce.Mr.Life.{put_mrs}
use libroce.Wr.{RecvWr, WcOpcode, success, recv_wr_opcode_to_wc}
use libroce.Sge.{sge_advance, sge_len}
use libroce.Ib.Opcode
use libroce.Ib.Aeth.{syndrome_nak, nak_invalid_request}
use libroce.Netpkt.{set_bth}
use libroce.Requester.{Ctx, netpkt_alloc}
use libroce.Responder.{
  Responder, find_wr, set_wr, pop_posted, pop_recv_wr, free_recv_wr, complete_recv, recv_cq_comp,
  netpkt_acknowledge, is_rc, answer,
}
use libroce.Responder.Payload.{
  payload_ended, Placed, recv_placed, denied, placed, map_and_place, payload_done, recv_next,
  recv_into, recv_popped, recv_payload,
}
use libroce.Responder.Write.{
  write_started, write_ended, write_placed, write_completed, write_done, takes_wr, write_into,
  write_refused, rdma_write_payload,
}

-- What `start` has of the two, and its type.
abbrev pub Same : Responder → Responder → Type 0
Same start r =
    (r.rq_psn ≡ start.rq_psn)
    × (r.in_psn_nak ≡ start.in_psn_nak)
    × (r.qp.qp_type ≡ start.qp.qp_type)

abbrev pub AllSame : Responder → Option Responder → Type 0
AllSame start none = Unit
AllSame start (some r) = Same start r

abbrev pub Keeps : Responder → Option (ℤ × Responder) → Type 0
Keeps start none = Unit
Keeps start (some (ret, r)) = Same start r

module _ (start : Responder) where
  pub bind-Keeps :
      {A : Type 0} (m : Option A) (f : A → Option (ℤ × Responder))
      → ((a : A) → Keeps start (f a))
      → Keeps start (m >>= f)
  bind-Keeps none f h = tt
  bind-Keeps (some a) f h = h a

  -- The same where what is bound keeps them too.
  pub chain-Keeps :
      (m : Option Responder) (f : Responder → Option (ℤ × Responder))
      → AllSame start m
      → ((r : Responder) → Same start r → Keeps start (f r))
      → Keeps start (m >>= f)
  chain-Keeps none f s h = tt
  chain-Keeps (some a) f s h = h a s

  pub if-Keeps :
      (t : Bool) (m m' : Option (ℤ × Responder))
      → Keeps start m
      → Keeps start m'
      → Keeps start (if t then m else m')
  if-Keeps true m m' h k = h
  if-Keeps false m m' h k = k

  bind-AllSame :
      {A : Type 0} (m : Option A) (f : A → Option Responder)
      → ((a : A) → AllSame start (f a))
      → AllSame start (m >>= f)
  bind-AllSame none f h = tt
  bind-AllSame (some a) f h = h a

  pub if-AllSame :
      (t : Bool) (m m' : Option Responder)
      → AllSame start m
      → AllSame start m'
      → AllSame start (if t then m else m')
  if-AllSame true m m' h k = h
  if-AllSame false m m' h k = k

  free_recv_wr-AllSame :
      (r : Responder) (w : RecvWr) → Same start r → AllSame start (free_recv_wr r w)
  unfolding free_recv_wr
  free_recv_wr-AllSame r w s = elim (Option-cases (put_mrs r.qp.pds r.qp.mrs w.sges)) [
    | inl e ↦ rw (e, free_recv_wr) tt
    | inr (a, e) ↦ rw (e, free_recv_wr) s
  ]

  pub netpkt_acknowledge-AllSame :
      (c : Ctx) (r : Responder) (syndrome val psn : ℕ)
      → Same start r
      → AllSame start (netpkt_acknowledge c r syndrome val psn)
  unfolding netpkt_acknowledge answer
  netpkt_acknowledge-AllSame c r syndrome val psn s = if-AllSame (not (is_rc r.qp.qp_type)) _ _ tt (
      bind-AllSame (netpkt_alloc c 0 0 0 0) _ (λ pkt.
        bind-AllSame
          (set_bth pkt.bth r.qp.qp_type Opcode.acknowledge false 0 r.qp.dest_qp_num false psn) _
          (λ bth. s)))

  complete_recv-Same :
      (r : Responder) (x : WcOpcode × ℕ × Bool) (wr_id byte_len : ℕ) (eth : Option Immdt.Immdt)
      (status : ℕ)
      → Same start r
      → Same start ((complete_recv r x wr_id byte_len eth status).1)
  unfolding complete_recv
  complete_recv-Same r (opcode, flags, false) wr_id byte_len eth status s = s
  complete_recv-Same r (opcode, flags, true) wr_id byte_len none status s = ground arith
  complete_recv-Same r (opcode, flags, true) wr_id byte_len (some h) status s = s

  recv_cq_comp-Same :
      (r : Responder) (ib_opcode wr_id byte_len : ℕ) (eth : Option Immdt.Immdt) (status : ℕ)
      → Same start r
      → Same start ((recv_cq_comp r ib_opcode wr_id byte_len eth status).1)
  unfolding recv_cq_comp
  recv_cq_comp-Same r ib_opcode wr_id byte_len eth status s =
      elim (Bool-cases (status == success)) [
        | inl e ↦
            rw (e, recv_cq_comp)
              (complete_recv-Same r (recv_wr_opcode_to_wc ib_opcode) wr_id byte_len eth status s)
        | inr e ↦ rw (e, recv_cq_comp) s
      ]

  payload_ended-Keeps :
      (w : RecvWr) (x : Bool × Responder) → Same start (x.1) → Keeps start (payload_ended w x)
  unfolding payload_ended
  payload_ended-Keeps w (false, r) s = s
  payload_ended-Keeps w (true, r) s =
      chain-Keeps (free_recv_wr r w) _ (free_recv_wr-AllSame r w s) (λ freed k. k)

  payload_done-Keeps :
      (r : Responder) (w : RecvWr) (buf_len : ℕ) (eth : Option Immdt.Immdt) (opcode : ℕ)
      → Same start r
      → Keeps start (payload_done r w buf_len eth opcode)
  unfolding payload_done
  payload_done-Keeps r w buf_len eth opcode s =
      let w' = record w { byte_len = u32 (w.byte_len + buf_len) } in
      let counted = record r { wrs = set_wr w' r.wrs } in
      payload_ended-Keeps w' (recv_cq_comp counted opcode w'.wr_id w'.byte_len eth success)
        (recv_cq_comp-Same counted opcode w'.wr_id w'.byte_len eth success s)

  recv_placed-Keeps :
      (r : Responder) (w : RecvWr) (buf_len : ℕ) (eth : Option Immdt.Immdt) (opcode : ℕ)
      (p : Placed)
      → Same start r
      → Keeps start (recv_placed r w buf_len eth opcode p)
  unfolding recv_placed
  recv_placed-Keeps r w buf_len eth opcode denied s = s
  recv_placed-Keeps r w buf_len eth opcode (placed mem) s =
      payload_done-Keeps (record r { mem = mem }) w buf_len eth opcode s

  recv_next-Keeps :
      (c : Ctx) (r : Responder) (w : RecvWr) (iovs : List Iov) (buf_len : ℕ)
      (eth : Option Immdt.Immdt) (opcode : ℕ)
      → Same start r
      → Keeps start (recv_next c r w iovs buf_len eth opcode)
  unfolding recv_next
  recv_next-Keeps c r w iovs buf_len eth opcode s =
      bind-Keeps (sge_advance w.sges buf_len w.sge_idx w.sge_off) _ (λ picked.
        let w' = record w { sge_idx = w.sge_idx + picked.passed; sge_off = picked.off } in
        let moved = record r { wrs = set_wr w' r.wrs } in
        bind-Keeps (map_and_place c moved picked.dst true 1 iovs) _
          (λ p. recv_placed-Keeps moved w' buf_len eth opcode p s))

  recv_popped-Keeps :
      (c : Ctx) (r : Responder) (p : ℕ) (iovs : List Iov) (buf_len : ℕ) (eth : Option Immdt.Immdt)
      (opcode : ℕ)
      → Same start r
      → Keeps start (recv_popped c r p iovs buf_len eth opcode)
  unfolding recv_popped recv_into
  recv_popped-Keeps c r p iovs buf_len eth opcode s = bind-Keeps (find_wr p r.wrs) _ (λ w.
      bind-Keeps (sge_len w.sges w.sge_idx w.sge_off) _ (λ room.
        if-Keeps (ltb room buf_len) (some (efault, r)) (recv_next c r w iovs buf_len eth opcode) s
          (recv_next-Keeps c r w iovs buf_len eth opcode s)))

  pop_posted-Same : (r : Responder) → Same start r → Same start ((pop_posted r).1)
  unfolding pop_posted
  pop_posted-Same r s = ground arith

  pop_recv_wr-Same :
      (r : Responder) (inprocess : Bool) → Same start r → Same start ((pop_recv_wr r inprocess).1)
  unfolding pop_recv_wr pop_posted
  pop_recv_wr-Same r inprocess s = ground arith

  pub recv_payload-Keeps :
      (c : Ctx) (r : Responder) (iovs : List Iov) (eth : Option Immdt.Immdt) (inprocess : Bool)
      (opcode : ℕ)
      → Same start r
      → Keeps start (recv_payload c r iovs eth inprocess opcode)
  unfolding recv_payload
  recv_payload-Keeps c r iovs eth inprocess opcode s = bind-Keeps (iov_len iovs) _ (λ buf_len.
      let x = pop_recv_wr r inprocess in
      if-Keeps (x.0 == 0) (some (eagain, x.1)) (recv_popped c (x.1) (x.0) iovs buf_len eth opcode)
        (pop_recv_wr-Same r inprocess s)
        (recv_popped-Keeps c (x.1) (x.0) iovs buf_len eth opcode (pop_recv_wr-Same r inprocess s)))

  write_started-AllSame :
      (r : Responder) (reth : Option Reth) → Same start r → AllSame start (write_started r reth)
  unfolding write_started
  write_started-AllSame r none s = ground arith
  write_started-AllSame r (some h) s = ground arith

  write_ended-Keeps :
      (wr : Option RecvWr) (x : Bool × Responder)
      → Same start (x.1)
      → Keeps start (write_ended wr x)
  unfolding write_ended
  write_ended-Keeps wr (false, r) s = s
  write_ended-Keeps none (true, r) s = tt
  write_ended-Keeps (some w) (true, r) s =
      chain-Keeps (free_recv_wr r w) _ (free_recv_wr-AllSame r w s) (λ freed k. k)

  write_completed-Keeps :
      (r : Responder) (wr : Option RecvWr) (wr_id : ℕ) (eth : Option Immdt.Immdt) (opcode : ℕ)
      → Same start r
      → Keeps start (write_completed r wr wr_id eth opcode)
  unfolding write_completed
  write_completed-Keeps r wr wr_id eth opcode s =
      write_ended-Keeps wr (recv_cq_comp r opcode wr_id r.writtenlen eth success)
        (recv_cq_comp-Same r opcode wr_id r.writtenlen eth success s)

  write_placed-Keeps :
      (r : Responder) (buf_len : ℕ) (eth : Option Immdt.Immdt) (opcode : ℕ) (p : Placed)
      → Same start r
      → Keeps start (write_placed r buf_len eth opcode p)
  unfolding write_placed write_done
  write_placed-Keeps r buf_len eth opcode denied s = s
  write_placed-Keeps r buf_len eth opcode (placed mem) s =
      let written = record r { mem = mem; writtenlen = u32 (r.writtenlen + buf_len) } in
      let x = pop_posted written in
      if-Keeps (not (takes_wr opcode)) _ _ (write_completed-Keeps written none 0 eth opcode s) (
        if-Keeps (x.0 == 0) _ _ s (
          bind-Keeps (find_wr (x.0) ((x.1).wrs)) _ (λ w.
            write_completed-Keeps (x.1) (some w) w.wr_id eth opcode (pop_posted-Same written s))))

  pub rdma_write_payload-Keeps :
      (c : Ctx) (r : Responder) (iovs : List Iov) (reth : Option Reth) (eth : Option Immdt.Immdt)
      (inprocess : Bool) (opcode : ℕ)
      → Same start r
      → Keeps start (rdma_write_payload c r iovs reth eth inprocess opcode)
  unfolding rdma_write_payload write_into write_refused
  rdma_write_payload-Keeps c r iovs reth eth inprocess opcode s =
      bind-Keeps (iov_len iovs) _ (λ buf_len.
        if-Keeps (if inprocess then r.writtenlen == 0 else not (r.writtenlen == 0)) _ _
          (chain-Keeps (netpkt_acknowledge c r syndrome_nak nak_invalid_request r.rq_psn) _
            (netpkt_acknowledge-AllSame c r syndrome_nak nak_invalid_request r.rq_psn s)
            (λ r' k. k))
          (chain-Keeps (write_started r reth) _ (write_started-AllSame r reth s)
            (λ r' k. bind-Keeps _ _ (λ p. write_placed-Keeps r' buf_len eth opcode p k))))
