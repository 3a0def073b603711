-- ===== src/Responder/Run.antt =====
-- Runs of packets on one queue pair, and the numbers of those that are taken.
use libroce.Base.{
  ℕ, zero, suc, ◌^◌, ◌<◌, ◌==◌, ◌≡◌, ◌≢◌, refl, sym, ap, subst, ◌∙◌, List, [], ◌∷◌, length, Option,
  none, some, ℤ, true, false, if◌then◌else◌, arith, inl, inr,
}
use libroce.Iov.{Iov}
use libroce.Psn.{psn_inc}
use libroce.Psn.Order.{psn_inc_lem}
use libroce.Ib.Opcode
use libroce.Ib.Bth.{Bth, get_psn, get_opcode}
use libroce.Qp.{rc}
use libroce.Requester.{Ctx}
use libroce.Responder.{Responder}
use libroce.Responder.Reliable.{recv_rc}
use libroce.Responder.Order.{Ordered, out_of_order-Stays, recv_rc-Ordered}

-- A packet as it comes in.
pub record Arrival : Type 0 where
  pub iovs : List Iov
  pub bth : Bth

-- With what has been taken behind a packet with the number `psn`, at which the next number is
-- `next`.
unfoldable pub taken : ℕ → ℕ → ℕ → List ℕ × Responder → List ℕ × Responder
taken psn next next' (psns, r) = (if next' == next then psns else psn ∷ psns, r)

-- Behind a packet with the number `psn`. A failed assertion is the end.
unfoldable pub continued :
    Responder → ℕ → (Responder → List ℕ × Responder) → Option (ℤ × Responder) → List ℕ × Responder
unfolding taken
continued r psn rest none = ([], r)
continued r psn rest (some (ret, r')) = taken psn r.rq_psn r'.rq_psn (rest r')

-- The packets of a queue pair one after the other, with the numbers of those at which its next
-- number moves.
unfoldable pub receive_all : Ctx → Responder → List Arrival → List ℕ × Responder
unfolding recv_rc continued
receive_all c r [] = ([], r)
receive_all c r (a ∷ more) =
    continued r (get_psn a.bth) (λ r'. receive_all c r' more) (recv_rc c r a.iovs a.bth)

-- So many numbers from `psn` on, and the number behind them.
abbrev pub numbers : ℕ → ℕ → List ℕ
numbers psn zero = []
numbers psn (suc k) = psn ∷ numbers (psn_inc psn) k

abbrev pub number_after : ℕ → ℕ → ℕ
number_after psn zero = psn
number_after psn (suc k) = number_after (psn_inc psn) k

-- None of them is an acknowledgement.
abbrev pub AreRequests : List Arrival → Type 0
AreRequests [] = Unit
AreRequests (a ∷ more) = (get_opcode a.bth ≢ Opcode.acknowledge) × AreRequests more

-- From the number `psn` on, each once.
abbrev pub InSequence : ℕ → List ℕ × Responder → Type 0
InSequence psn (psns, r') =
    (psns ≡ numbers psn (length psns)) × (r'.rq_psn ≡ number_after psn (length psns))

pub psn_inc-lt : (psn : ℕ) → psn_inc psn < 2 ^ 24
psn_inc-lt psn = rw psn_inc_lem (omega arith)

psn_inc-differs : (psn : ℕ) → psn < 2 ^ 24 → psn_inc psn ≢ psn
psn_inc-differs psn h = rw psn_inc_lem (omega arith)

-- Where the next number has stayed, and where it has moved.
taken-stays :
    (psn next next' : ℕ) (x : List ℕ × Responder)
    → next' ≡ next
    → InSequence next' x
    → InSequence next (taken psn next next' x)
unfolding taken
taken-stays psn next next' (psns, r) e s =
    let same : (next' == next) ≡ true = ground arith in rw (taken, same, sym e) s

taken-moves :
    (psn next next' : ℕ) (x : List ℕ × Responder)
    → next < 2 ^ 24
    → psn ≡ next
    → next' ≡ psn_inc next
    → InSequence next' x
    → InSequence next (taken psn next next' x)
unfolding taken
taken-moves psn next next' (psns, r) small here e s =
    let other : (next' == next) ≡ false = ground (arith, psn_inc-differs next small) in
    let (ps, q) = subst (λ k. InSequence k (psns, r)) e s in
    rw (taken, other, here) (ap (λ l. next ∷ l) ps, q)

-- With what the rest of the packets does.
module _ (c : Ctx) (r : Responder) (psn : ℕ) (rest : Responder → List ℕ × Responder)
    (type : r.qp.qp_type ≡ rc) (small : r.rq_psn < 2 ^ 24)
    (rest-InSequence : (r' : Responder)
      → r'.qp.qp_type ≡ rc
      → r'.rq_psn < 2 ^ 24
      → InSequence r'.rq_psn (rest r')) where
  stays :
      (ret : ℤ) (r' : Responder)
      → r'.rq_psn ≡ r.rq_psn
      → r'.qp.qp_type ≡ r.qp.qp_type
      → InSequence r.rq_psn (continued r psn rest (some (ret, r')))
  unfolding continued
  stays ret r' stayed same =
      taken-stays psn r.rq_psn r'.rq_psn (rest r') stayed
        (rest-InSequence r' (same ∙ type) (subst (λ n. n < 2 ^ 24) (sym stayed) small))

  continued-InSequence :
      (m : Option (ℤ × Responder)) → Ordered r psn m → InSequence r.rq_psn (continued r psn rest m)
  unfolding continued
  continued-InSequence none here = (refl, refl)
  continued-InSequence (some (ret, r')) (inl (here, told, same, inl (done, moved))) =
      taken-moves psn r.rq_psn r'.rq_psn (rest r') small here moved (
        rest-InSequence r' (same ∙ type)
          (subst (λ n. n < 2 ^ 24) (sym moved) (psn_inc-lt r.rq_psn)))
  continued-InSequence (some (ret, r')) (inl (here, told, same, inr (failed, stayed))) =
      stays ret r' stayed same
  continued-InSequence (some (ret, r')) (inr (done, outside)) =
      let (stayed, same) = out_of_order-Stays r r' psn outside in stays ret r' stayed same

-- A run on a queue pair of a reliable connection whose next number has 24 digits, of packets none
-- of which is an acknowledgement, where there is memory for an answer, up to its end or an
-- assertion that fails: the numbers of the packets at which the next number moves are the numbers
-- from the next one on, each once and in their order, round at 2 ^ 24; and the next number of the
-- queue pair is the one behind them.
pub receive_all-InSequence :
    (c : Ctx) (r : Responder) (arrivals : List Arrival)
    → AreRequests arrivals
    → r.qp.qp_type ≡ rc
    → c.memory 0 ≡ true
    → r.rq_psn < 2 ^ 24
    → InSequence r.rq_psn (receive_all c r arrivals)
unfolding receive_all
receive_all-InSequence c r [] requests type memory small = (refl, refl)
receive_all-InSequence c r (a ∷ more) (request, requests) type memory small =
    continued-InSequence c r (get_psn a.bth) (λ r'. receive_all c r' more) type small
      (λ r' type' small'. receive_all-InSequence c r' more requests type' memory small')
      (recv_rc c r a.iovs a.bth) (recv_rc-Ordered c r a.iovs a.bth request type memory small)
