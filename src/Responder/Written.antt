-- ===== src/Responder/Written.antt =====
-- What a write without immediate that is carried out leaves: the number of bytes written.
use libroce.Base.{
  ℕ, zero, suc, ◌+◌, ◌^◌, ◌<◌, ◌==◌, ◌≡◌, refl, sym, ap, ◌∙◌, subst, List, Option, none, some, ℤ,
  pos, negsuc, true, false, ◌>>=◌, arith, Bool-cases, inl, inr,
}
use libroce.Word.{u32}
use libroce.Iov.{Iov, iov_len}
use libroce.Psn.{psn_inc}
use libroce.Ib.Opcode
use libroce.Ib.Bth.{Bth, get_psn, get_ack}
use libroce.Ib.Reth.{Reth, get_va, get_rkey, get_dmalen}
use libroce.Ib.Aeth.{syndrome_ack}
use libroce.Qp.{rc}
use libroce.Wr.{recv_wr_opcode_to_wc}
use libroce.Requester.{Ctx}
use libroce.Responder.{Responder, recv_cq_comp, complete_recv}
use libroce.Responder.Payload.{Placed, denied, placed}
use libroce.Responder.Write.{
  write_started, write_into, write_placed, write_done, write_completed, write_ended,
  rdma_write_payload,
}
use libroce.Responder.Reliable.{answered, recv_finished}
use libroce.Responder.Answer.{netpkt_acknowledge-Answered}

-- What a write has that has been carried out, `n` bytes of it.
abbrev pub Written : ℕ → Responder → Responder → Type 0
Written n r r' = (r'.writtenlen ≡ n) × (r'.qp.qp_type ≡ r.qp.qp_type)

placed-Written :
    (r r' : Responder) (n : ℕ) (p : Placed)
    → n < 2 ^ 32
    → r.writtenlen ≡ 0
    → write_placed r n none Opcode.rdma_write_only p ≡ some (pos 0, r')
    → Written n r r'
unfolding write_placed write_done write_completed write_ended recv_cq_comp complete_recv
    recv_wr_opcode_to_wc
placed-Written r r' n denied small nothing e = absurd cc
placed-Written r r' n (placed mem) small nothing e =
    let filled : Responder = record r { mem = mem; writtenlen = u32 (r.writtenlen + n) } in
    let done : write_placed r n none Opcode.rdma_write_only (placed mem) ≡ some (pos 0, filled) =
      refl in
    let same : filled ≡ r' = cc in subst (Written n r) same (omega arith, refl)

pub bind_some :
    {A B : Type 0} (m : Option A) (f : A → Option B) (b : B)
    → (m >>= f) ≡ some b
    → (a : A) × (m ≡ some a) × (f a ≡ some b)
bind_some none f b e = absurd cc
bind_some (some a) f b e = (a, refl, e)

pub write-Written :
    (c : Ctx) (r r' : Responder) (iovs : List Iov) (reth : Reth) (n : ℕ)
    → n < 2 ^ 32
    → r.writtenlen ≡ 0
    → iov_len iovs ≡ some n
    → rdma_write_payload c r iovs (some reth) none false Opcode.rdma_write_only ≡ some (pos 0, r')
    → Written n r r'
unfolding rdma_write_payload write_started write_into
write-Written c r r' iovs reth n small nothing counted e =
    let started : Responder = record r {
      iova = get_va reth;
      rkey = get_rkey reth;
      dmalen = get_dmalen reth;
      writtenlen = 0;
    } in
    let idle : (r.writtenlen == 0) ≡ true = ground arith in
    let through : rdma_write_payload c r iovs (some reth) none false Opcode.rdma_write_only
        ≡ write_into c started iovs n none Opcode.rdma_write_only =
      rw (counted, idle, rdma_write_payload) refl in
    let (p, placing, e') =
      bind_some _ (write_placed started n none Opcode.rdma_write_only) (pos 0, r')
        (sym through ∙ e) in
    placed-Written started r' n p small refl e'

pub finished-Written :
    (c : Ctx) (bth : Bth) (r r' : Responder) (x : ℤ × Responder) (n : ℕ)
    → c.memory 0 ≡ true
    → r.qp.qp_type ≡ rc
    → recv_finished c bth x ≡ some (pos 0, r')
    → (x.0 ≡ pos 0 → Written n r (x.1))
    → Written n r r'
unfolding recv_finished answered
finished-Written c bth r r' (pos zero, r0) n memory type e w =
    let (was, same) = w refl in
    let connected : r0.qp.qp_type ≡ rc = same ∙ type in
    elim (Bool-cases (get_ack bth)) [
      | inl asked ↦
          let (ra, ea, (pkt, ext, sent)) =
            netpkt_acknowledge-Answered c r0 syndrome_ack 0x1f (get_psn bth) connected memory in
          let done : recv_finished c bth (pos 0, r0)
              ≡ some (pos 0, record ra { rq_psn = psn_inc ra.rq_psn }) =
            rw (asked, ea, answered) refl in
          let eq : record ra { rq_psn = psn_inc ra.rq_psn } ≡ r' = cc in
          subst (Written n r) eq
            (ap (λ s. s.writtenlen) sent ∙ was, ap (λ s. s.qp.qp_type) sent ∙ same)
      | inr not_asked ↦
          let done : recv_finished c bth (pos 0, r0)
              ≡ some (pos 0, record r0 { rq_psn = psn_inc r0.rq_psn }) =
            rw (not_asked, answered) refl in
          let eq : record r0 { rq_psn = psn_inc r0.rq_psn } ≡ r' = cc in
          subst (Written n r) eq (was, same)
    ]
finished-Written c bth r r' (pos (suc k), r0) n memory type e w = absurd cc
finished-Written c bth r r' (negsuc k, r0) n memory type e w = absurd cc
