-- ===== src/Requester/Acks.antt =====
-- The loop of `roce_handle_ack`: which packets it takes off, and where the window moves.
use Prim.{tt}
use libroce.Base.{
  ℕ, zero, suc, ◌-◌, ◌%◌, ◌^◌, ◌≤◌, ◌<◌, ◌≡◌, refl, sym, ap, ap₂, ◌∙◌, subst, inl, inr, List, [],
  ◌∷◌, Option, none, some, Bool, true, false, Bool-cases, Option-cases, length, drop, arith, ltb,
  ltb→lt, ltb→le, ◌&&◌,
}
use libroce.Psn.{compare_psn, is_positive, psn_inc}
use libroce.Psn.Order.{after, ahead, compare_psn_sign, psn_inc_lem}
use libroce.Requester.{Packet, Requester, netpkt_psn}
use libroce.Requester.Queue.{rc_complete_send_wr, acked}
use libroce.Requester.Window.{InRow}
use libroce.Requester.Kept.{IsKept, Keeps, rc_complete_send_wr-Keeps}

-- What is left of the queues when the `n` oldest packets are acknowledged.
pub record Shifted (n : ℕ) (s s' : Requester) : Type 0 where
  pub sq_psn : s'.sq_psn ≡ after s.sq_psn n
  pub outgoing : s'.outgoing ≡ drop n s.outgoing
  pub psn : s'.psn ≡ s.psn
  pub pending : s'.pending ≡ s.pending
  pub sent : s'.sent ≡ s.sent

-- The packets up to a number are taken off, unless an assertion fails.
abbrev pub Shifts : ℕ → Requester → Option Requester → Type 0
Shifts n s none = Unit
Shifts n s (some s') = Shifted n s s'

-- The numbers of the packets on their way against that of an acknowledgement.
pub sign_of :
    (base i m : ℕ)
    → base < 2 ^ 24
    → i < 2 ^ 22
    → m < 2 ^ 22
    → is_positive (compare_psn (after base i) (after base m)) ≡ ltb m i
sign_of base i m hb hi hm =
    (compare_psn_sign (after base i) (after base m)).1 ∙ elim (Bool-cases (ltb m i)) [
      | inl gt ↦
          ap sign (ahead_gt (ltb→lt m i gt))
          ∙ above (i - m) (omega (arith, ltb→lt m i gt)) (omega arith)
          ∙ sym gt
      | inr le ↦ ap sign (ahead_le (ltb→le m i le)) ∙ below (m - i) (omega arith) ∙ sym le
    ]
  where
    sign : ℕ → Bool
    sign d = ltb 0 d && ltb d (2 ^ 23)

    ahead_gt : m < i → ahead (after base i) (after base m) ≡ i - m
    ahead_gt h = omega arith

    ahead_le : i ≤ m → ahead (after base i) (after base m) ≡ (2 ^ 24 - (m - i)) % 2 ^ 24
    ahead_le h = omega arith

    above : (d : ℕ) → 0 < d → d < 2 ^ 23 → (ltb 0 d && ltb d (2 ^ 23)) ≡ true
    above d lo hi = ground arith

    below :
        (d : ℕ)
        → d < 2 ^ 22
        → (ltb 0 ((2 ^ 24 - d) % 2 ^ 24) && ltb ((2 ^ 24 - d) % 2 ^ 24) (2 ^ 23)) ≡ false
    below d h = ground arith

-- The loop stops at the first packet behind the acknowledgement.
acked_stop :
    (s : Requester) (pkts : List Packet) (psn base : ℕ)
    → base < 2 ^ 24
    → InRow (after base 1) pkts
    → psn ≡ after base 0
    → acked s pkts psn ≡ some s
unfolding acked
acked_stop s [] psn base fits row at = refl
acked_stop s (pkt ∷ pkts) psn base fits row at =
    rw
      (
        ap₂ (λ a b. is_positive (compare_psn a b)) row.0 at
            ∙ sign_of base 1 0 fits (omega arith) (omega arith),
        acked,
      )
      refl

pub acked-Shifts :
    (s : Requester) (pkts : List Packet) (m psn : ℕ)
    → s.outgoing ≡ pkts
    → s.sq_psn < 2 ^ 24
    → InRow s.sq_psn pkts
    → m < length pkts
    → length pkts < 2 ^ 22
    → psn ≡ after s.sq_psn m
    → Shifts (suc m) s (acked s pkts psn)
unfolding acked
acked-Shifts s [] m psn e fits row le small at = absurd (omega arith)
acked-Shifts s (pkt ∷ pkts) m psn e fits row le small at =
    let t : Requester = record s { outgoing = pkts } in
    elim (Option-cases (rc_complete_send_wr t pkt)) [
      | inl n ↦ rw (first, n, Shifts, acked) tt
      | inr (s', r) ↦
          let k : IsKept (record t { sq_psn = psn_inc s.sq_psn }) s' =
            subst (Keeps (record t { sq_psn = psn_inc s.sq_psn })) r
              (rc_complete_send_wr-Keeps t pkt) in
          rw (first, r, acked) (go m s' k le at (λ t m. acked-Shifts t pkts m psn))
    ]
  where
    first : is_positive (compare_psn (netpkt_psn pkt) psn) ≡ false
    first =
        ap₂ (λ a b. is_positive (compare_psn a b)) (row.0 ∙ omega arith) at
        ∙ sign_of s.sq_psn 0 m fits (omega arith) (omega arith)
        ∙ none_before m
      where
        none_before : (m : ℕ) → ltb m 0 ≡ false
        none_before m = ground arith

    go :
        (m : ℕ) (s' : Requester)
        → IsKept (record s { outgoing = pkts; sq_psn = psn_inc s.sq_psn }) s'
        → m < suc (length pkts)
        → psn ≡ after s.sq_psn m
        → ((t : Requester) (m : ℕ)
            → t.outgoing ≡ pkts
            → t.sq_psn < 2 ^ 24
            → InRow t.sq_psn pkts
            → m < length pkts
            → length pkts < 2 ^ 22
            → psn ≡ after t.sq_psn m
            → Shifts (suc m) t (acked t pkts psn))
        → Shifts (suc m) s (acked s' pkts psn)
    go zero s' k le at again = rw (acked_stop s' pkts psn s.sq_psn fits row.1 at) (record {
      sq_psn = k.sq_psn ∙ psn_inc_lem s.sq_psn;
      outgoing = k.outgoing ∙ sym (ap (drop 1) e);
      psn = k.psn;
      pending = k.pending;
      sent = k.sent;
    })
    go (suc m) s' k le at again =
        let moved : s'.sq_psn ≡ after s.sq_psn 1 = k.sq_psn ∙ psn_inc_lem s.sq_psn in
        later (acked s' pkts psn) k (suc m) (
          again s' m k.outgoing (omega arith) (subst (λ n. InRow n pkts) (sym moved) row.1)
            (omega arith) (omega arith) (omega arith))
      where
        later :
            (r : Option Requester)
            → IsKept (record s { outgoing = pkts; sq_psn = psn_inc s.sq_psn }) s'
            → (n : ℕ) → Shifts n s' r
            → Shifts (suc n) s r
        later none k n h = tt
        later (some s'') k n h = record {
          sq_psn = h.sq_psn ∙ omega (arith, k.sq_psn, psn_inc_lem s.sq_psn);
          outgoing = h.outgoing ∙ ap (drop n) k.outgoing ∙ sym (ap (drop (suc n)) e);
          psn = h.psn ∙ k.psn;
          pending = h.pending ∙ k.pending;
          sent = h.sent ∙ k.sent;
        }
