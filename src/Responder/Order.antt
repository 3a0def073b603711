-- ===== src/Responder/Order.antt =====
-- What `roce_recv_rc` does with a packet, by its sequence number.
use libroce.Base.{
  ℕ, zero, suc, ◌^◌, ◌≤◌, ◌<◌, ◌==◌, ◌≡◌, ◌≢◌, ◌⊎◌, refl, ap, ◌∙◌, List, Option, none, some, ℤ, pos,
  negsuc, Bool, true, false, ◌>>=◌, if◌then◌else◌, arith, Bool-cases, inl, inr,
}
use libroce.Word.{bswap32}
use libroce.Word.Field.{masked}
use libroce.Iov.{Iov}
use libroce.Psn.{psn_inc, compare_psn, is_positive, is_negative}
use libroce.Psn.Order.{ahead, compare_psn_sign}
use libroce.Ib.Opcode
use libroce.Ib.Bth.{Bth, get_psn, get_opcode, get_ack}
use libroce.Ib.Aeth.{syndrome_ack, syndrome_nak, nak_psn_sequence_error}
use libroce.Qp.{rc}
use libroce.Requester.{Ctx}
use libroce.Responder.{Responder, netpkt_acknowledge}
use libroce.Responder.Reliable.{out_of_seq, dispatch, answered, recv_finished, recv_rc}
use libroce.Responder.Kept.{Same, Keeps, AllSame, if-AllSame, netpkt_acknowledge-AllSame}
use libroce.Responder.Switch.{dispatch-Keeps}
use libroce.Responder.Answer.{Answered, netpkt_acknowledge-Answered}

-- A packet in order: the next number moves where the call returns 0, and there alone.
abbrev pub Moves : Responder → ℤ → Responder → Type 0
Moves r ret r' =
    ((ret ≡ pos 0) × (r'.rq_psn ≡ psn_inc r.rq_psn)) ⊎ ((ret ≢ pos 0) × (r'.rq_psn ≡ r.rq_psn))

-- A packet before the next, which is ignored.
abbrev pub IsDuplicate : Responder → ℕ → Responder → Type 0
IsDuplicate r psn r' = (0 < ahead r.rq_psn psn) × (ahead r.rq_psn psn < 2 ^ 23) × (r' ≡ r)

-- A gap is told of once.
abbrev pub IsTold : Responder → Responder → Type 0
IsTold r r' =
    ((r.in_psn_nak ≡ true) × (r' ≡ r))
    ⊎ ((r.in_psn_nak ≡ false)
        × ((ra : Responder) × (Answered syndrome_nak nak_psn_sequence_error r ra)
            × (r' ≡ record ra { in_psn_nak = true })))

-- A packet behind the next.
abbrev pub IsGap : Responder → ℕ → Responder → Type 0
IsGap r psn r' = (2 ^ 23 ≤ ahead r.rq_psn psn) × IsTold r r'

-- An assertion fails only on a packet in order.
abbrev pub Ordered : Responder → ℕ → Option (ℤ × Responder) → Type 0
Ordered r psn none = psn ≡ r.rq_psn
Ordered r psn (some (ret, r')) =
    ((psn ≡ r.rq_psn) × (r'.in_psn_nak ≡ false) × (r'.qp.qp_type ≡ r.qp.qp_type) × Moves r ret r')
    ⊎ ((ret ≡ pos 0) × (IsDuplicate r psn r' ⊎ IsGap r psn r'))

get_psn-lt : (h : Bth) → get_psn h < 2 ^ 24
unfolding get_psn
get_psn-lt h = omega (arith, masked 0 24 (bswap32 h.u32_2))

ahead_positive :
    (a b : ℕ) → is_positive (compare_psn a b) ≡ true → (0 < ahead a b) × (ahead a b < 2 ^ 23)
ahead_positive a b e = ground (arith, compare_psn_sign a b)

ahead_negative : (a b : ℕ) → is_negative (compare_psn a b) ≡ true → 2 ^ 23 ≤ ahead a b
ahead_negative a b e = ground (arith, compare_psn_sign a b)

equal :
    (a b : ℕ)
    → a < 2 ^ 24
    → b < 2 ^ 24
    → is_positive (compare_psn a b) ≡ false
    → is_negative (compare_psn a b) ≡ false
    → b ≡ a
equal a b ha hb p n = ground (arith, compare_psn_sign a b)

out_of_seq-IsTold :
    (c : Ctx) (r : Responder)
    → r.qp.qp_type ≡ rc
    → c.memory 0 ≡ true
    → (r' : Responder) × (out_of_seq c r ≡ some r') × IsTold r r'
unfolding out_of_seq
out_of_seq-IsTold c r type memory = elim (Bool-cases r.in_psn_nak) [
  | inl told ↦ (r, rw told refl, inl (told, refl))
  | inr untold ↦
      let (ra, eq, one) =
        netpkt_acknowledge-Answered c r syndrome_nak nak_psn_sequence_error r.rq_psn type memory in
      (
        record ra { in_psn_nak = true },
        eq_of r.in_psn_nak untold ∙ ap (λ m. m >>= told_now) eq,
        inr (untold, (ra, one, refl)),
      )
]
  where
    told_now : Responder → Option Responder
    told_now r' = some (record r' { in_psn_nak = true })

    eq_of :
        (b : Bool)
        → b ≡ false
        → (if b
            then some r
            else (netpkt_acknowledge c r syndrome_nak nak_psn_sequence_error r.rq_psn >>= told_now))
          ≡ (netpkt_acknowledge c r syndrome_nak nak_psn_sequence_error r.rq_psn >>= told_now)
    eq_of b e = rw e refl

-- Of a packet that is out of order.
pub out_of_order-Stays :
    (r r' : Responder) (psn : ℕ)
    → IsDuplicate r psn r' ⊎ IsGap r psn r'
    → (r'.rq_psn ≡ r.rq_psn) × (r'.qp.qp_type ≡ r.qp.qp_type)
out_of_order-Stays r r' psn (inl (after, near, e)) =
    (ap (λ s. s.rq_psn) e, ap (λ s. s.qp.qp_type) e)
out_of_order-Stays r r' psn (inr (behind, inl (told, e))) =
    (ap (λ s. s.rq_psn) e, ap (λ s. s.qp.qp_type) e)
out_of_order-Stays r r' psn (inr (behind, inr (untold, (ra, (pkt, ext, sent), e)))) = (
  ap (λ s. s.rq_psn) e ∙ ap (λ s. s.rq_psn) sent,
  ap (λ s. s.qp.qp_type) e ∙ ap (λ s. s.qp.qp_type) sent,
)

abbrev pub expecting : Responder → Responder
expecting r = record r { in_psn_nak = false }

module _ (c : Ctx) (bth : Bth) (r : Responder) (in_order : get_psn bth ≡ r.rq_psn) where
  answered-AllSame :
      (r' : Responder) → Same (expecting r) r' → AllSame (expecting r) (answered c r' bth)
  unfolding answered
  answered-AllSame r' s =
      if-AllSame (expecting r) (get_ack bth) _ _
        (netpkt_acknowledge-AllSame (expecting r) c r' syndrome_ack 0x1f (get_psn bth) s) s

  -- Behind the answer that is asked for.
  moved-Ordered :
      (m : Option Responder)
      → AllSame (expecting r) m
      → Ordered r (get_psn bth) (m >>= λ r'. some (pos 0, record r' { rq_psn = psn_inc r'.rq_psn }))
  moved-Ordered none s = in_order
  moved-Ordered (some r') s = inl (in_order, s.1, s.2, inl (refl, ap psn_inc s.0))

  finished-Ordered :
      (x : ℤ × Responder)
      → Same (expecting r) (x.1)
      → Ordered r (get_psn bth) (recv_finished c bth x)
  unfolding recv_finished
  finished-Ordered (pos zero, r') s = moved-Ordered (answered c r' bth) (answered-AllSame r' s)
  finished-Ordered (pos (suc k), r') s = inl (in_order, s.1, s.2, inr ((λ e. cc), s.0))
  finished-Ordered (negsuc k, r') s = inl (in_order, s.1, s.2, inr ((λ e. cc), s.0))

  request-Ordered :
      (m : Option (ℤ × Responder))
      → Keeps (expecting r) m
      → Ordered r (get_psn bth) (m >>= recv_finished c bth)
  request-Ordered none s = in_order
  request-Ordered (some x) s = finished-Ordered x s

-- `roce_recv_rc` of a packet that is a request, on a queue pair of a reliable connection whose next
-- number has 24 digits, where there is memory for an answer. A packet with the next number: the
-- number moves by one where the call returns 0, and stays where it returns an error; the mark that
-- a gap has been answered is taken off. A packet less than half the circle before it returns 0 and
-- leaves the state as it is. Any other packet returns 0; it leaves the state as it is where the
-- mark is set, and else one packet is sent, which has a NAK of a sequence error and the message
-- number in its header, the message number is one on, the mark is set, and nothing else is changed.
-- An assertion fails on a packet with the next number alone.
pub recv_rc-Ordered :
    (c : Ctx) (r : Responder) (iovs : List Iov) (bth : Bth)
    → get_opcode bth ≢ Opcode.acknowledge
    → r.qp.qp_type ≡ rc
    → c.memory 0 ≡ true
    → r.rq_psn < 2 ^ 24
    → Ordered r (get_psn bth) (recv_rc c r iovs bth)
unfolding recv_rc
recv_rc-Ordered c r iovs bth request type memory small =
    elim (Bool-cases (is_positive (compare_psn r.rq_psn (get_psn bth)))) [
      | inl before ↦
          rw (other_code, before, recv_rc)
            (inr (
              refl,
              inl (
                (ahead_positive r.rq_psn psn before).0,
                (ahead_positive r.rq_psn psn before).1,
                refl,
              ),
            ))
      | inr not_before ↦ elim (Bool-cases (is_negative (compare_psn r.rq_psn (get_psn bth)))) [
        | inl behind ↦
            let (r', eq, told) = out_of_seq-IsTold c r type memory in
            rw (other_code, not_before, behind, eq, recv_rc)
              (inr (refl, inr (ahead_negative r.rq_psn psn behind, told)))
        | inr not_behind ↦
            rw (other_code, not_before, not_behind, recv_rc)
              (request-Ordered c bth r
                (equal r.rq_psn psn small (get_psn-lt bth) not_before not_behind)
                (dispatch c (expecting r) (get_opcode bth) iovs)
                (dispatch-Keeps (expecting r) c (expecting r) (get_opcode bth) (refl, refl, refl)
                  iovs))
      ]
    ]
  where
    psn : ℕ
    psn = get_psn bth

    other_code : (get_opcode bth == Opcode.acknowledge) ≡ false
    other_code = ground arith
