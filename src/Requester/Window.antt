-- ===== src/Requester/Window.antt =====
-- `roce_xmit_pkts`: how many of the packets that wait it puts on their way.
use Prim.{tt}
use libroce.Base.{
  ℕ, suc, ◌+◌, ◌-◌, ◌^◌, ◌≤◌, ◌<◌, ◌≡◌, ◌≢◌, refl, sym, ap, ap₂, ◌∙◌, subst, inl, inr, List, [],
  ◌∷◌, ◌++◌, Option, none, some, true, false, Bool-cases, length, take, drop, min, arith,
  append_assoc, append-nil, length-append, ==_iff, ==→ne, ltb, leb, ◌||◌, ◌==◌,
}
use libroce.Word.{u32}
use libroce.Psn.{is_zero, is_negative}
use libroce.Psn.Order.{after, ahead, compare_psn_sign}
use libroce.Requester.{Packet, Requester, netpkt_psn}
use libroce.Requester.Queue.{tail_packet, window_left, netpkt_outgoing, xmit_pending, xmit_pkts}

-- Packets with sequence numbers in a row.
abbrev pub InRow : ℕ → List Packet → Type 0
InRow psn [] = Unit
InRow psn (pkt ∷ pkts) = (netpkt_psn pkt ≡ psn) × InRow (after psn 1) pkts

-- The packets on their way and those that wait, one behind the other.
abbrev pub queued : Requester → List Packet
queued s = s.outgoing ++ s.pending

-- The queues hold the packets from the oldest that is not acknowledged to the newest.
pub record InOrder (s : Requester) : Type 0 where
  pub row : InRow s.sq_psn (queued s)
  pub next : s.psn ≡ after s.sq_psn (length (queued s))
  pub fits : s.sq_psn < 2 ^ 24

-- `s` with other queues.
abbrev pub with_queues : Requester → List Packet → List Packet → List Packet → Requester
with_queues s outgoing pending sent = record s {
  outgoing = outgoing;
  pending = pending;
  sent = sent;
}

pub InRow-append :
    (psn : ℕ) (xs ys : List Packet)
    → InRow (after psn 0) (xs ++ ys)
    → InRow (after psn (length xs)) ys
InRow-append psn [] ys h = h
InRow-append psn (x ∷ xs) ys h =
    let shift : (k : ℕ) → after (psn + 1) k ≡ after psn (suc k) = λ k. omega arith in
    let one : after (after psn 0) 1 ≡ after (psn + 1) 0 = omega arith in
    subst (λ n. InRow n ys) (shift (length xs))
      (InRow-append (psn + 1) xs ys (subst (λ n. InRow n (xs ++ ys)) one h.1))

-- The sign of the test, for the packet `k` numbers behind the oldest.
pub window_left_sign :
    (s : Requester) (pkt : Packet) (k : ℕ)
    → netpkt_psn pkt ≡ after s.sq_psn k
    → s.sq_psn < 2 ^ 24
    → k ≤ 8
    → (is_zero (window_left s pkt) ≡ (k == 8)) × (is_negative (window_left s pkt) ≡ false)
window_left_sign s pkt k e fits h =
    let sign = compare_psn_sign (u32 (s.sq_psn + 8)) (netpkt_psn pkt) in
    let far : ahead (u32 (s.sq_psn + 8)) (netpkt_psn pkt) ≡ 8 - k = omega arith in
    (sign.0 ∙ ap (λ d. d == 0) far ∙ same, sign.2 ∙ ap (leb (2 ^ 23)) far ∙ near)
  where
    same : (8 - k == 0) ≡ (k == 8)
    same = ground arith

    near : leb (2 ^ 23) (8 - k) ≡ false
    near = ground arith

xmit_pending_lem :
    (s : Requester) (pkts outgoing sent : List Packet) (k : ℕ)
    → InRow (after s.sq_psn k) pkts
    → s.sq_psn < 2 ^ 24
    → k ≤ 8
    → (n : ℕ) × (n ≡ min (length pkts) (9 - k))
      × (xmit_pending (with_queues s outgoing pkts sent) pkts
          ≡ with_queues s (outgoing ++ take n pkts) (drop n pkts) (sent ++ take n pkts))
unfolding xmit_pending netpkt_outgoing
xmit_pending_lem s [] outgoing sent k row fits h = (
  0,
  omega arith,
  ap₂ (λ o t. with_queues s o [] t) (sym (append-nil outgoing)) (sym (append-nil sent)),
)
xmit_pending_lem s (pkt ∷ pkts) outgoing sent k row fits h =
    let sign = window_left_sign s pkt k row.0 fits h in
    elim (Bool-cases (k == 8)) [
      | inl last ↦ (1, omega (arith, (==_iff k 8).0 last), rw (sign.0 ∙ last) refl)
      | inr more ↦
          let shift : after (after s.sq_psn k) 1 ≡ after s.sq_psn (suc k) = omega arith in
          let ne : k ≢ 8 = ==→ne k 8 more in
          let (n, count, same) =
            xmit_pending_lem s pkts (outgoing ++ pkt ∷ []) (sent ++ pkt ∷ []) (suc k)
              (subst (λ m. InRow m pkts) shift row.1) fits (omega arith) in
          (
            suc n,
            omega arith,
            rw (sign.0 ∙ more) (
                same
                ∙ ap₂ (λ o t. with_queues s o (drop n pkts) t)
                    (append_assoc outgoing (pkt ∷ []) (take n pkts))
                    (append_assoc sent (pkt ∷ []) (take n pkts))),
          )
    ]

-- The newest of packets in a row.
pub tail_packet-InRow :
    (psn : ℕ) (pkt : Packet) (pkts : List Packet)
    → psn < 2 ^ 24
    → InRow psn (pkt ∷ pkts)
    → (last : Packet) × (tail_packet (pkt ∷ pkts) ≡ some last)
      × (netpkt_psn last ≡ after psn (length pkts))
tail_packet-InRow psn pkt [] h row = (pkt, refl, omega (arith, row.0))
tail_packet-InRow psn pkt (pkt' ∷ pkts) h row =
    let (last, found, at) = tail_packet-InRow (after psn 1) pkt' pkts (omega arith) row.1 in
    (last, found, omega (arith, at))

pub InRow-take : (psn : ℕ) (xs ys : List Packet) → InRow psn (xs ++ ys) → InRow psn xs
InRow-take psn [] ys h = tt
InRow-take psn (x ∷ xs) ys h = (h.0, InRow-take (after psn 1) xs ys h.1)

-- The packets that wait are `length s.outgoing` numbers behind the oldest.
pending-InRow : (s : Requester) → InOrder s → InRow (after s.sq_psn (length s.outgoing)) s.pending
pending-InRow s o =
    let e : s.sq_psn ≡ after s.sq_psn 0 = omega (arith, o.fits) in
    InRow-append s.sq_psn s.outgoing s.pending (subst (λ n. InRow n (queued s)) e o.row)

-- What `roce_xmit_pkts` makes of queues in order with at most 9 packets on their way: the first of
-- those that wait go out, until none waits or 9 are on their way.
abbrev pub Sent : Requester → Option Requester → Type 0
Sent s r =
    (n : ℕ) × (n ≡ min (length s.pending) (9 - length s.outgoing))
    × (r
        ≡ some (
            with_queues s (s.outgoing ++ take n s.pending) (drop n s.pending)
              (s.sent ++ take n s.pending)))

-- For queues in order with up to 9 packets on their way, whose sequence numbers do not go round
-- zero, `roce_xmit_pkts` passes its assertions, and puts on their way and transmits, in their
-- order, as many of the packets that wait as make 9 with those that are on their way, or all where
-- there are fewer.
pub xmit_pkts-Sent :
    (s : Requester)
    → InOrder s
    → length s.outgoing ≤ 9
    → s.sq_psn + length (queued s) < 2 ^ 24
    → Sent s (xmit_pkts s)
unfolding xmit_pkts
xmit_pkts-Sent s o small straight = go s.outgoing refl
  where
    go : (out : List Packet) → s.outgoing ≡ out → Sent s (xmit_pkts s)
    go [] e =
        let none_out : length s.outgoing ≡ 0 = ap (length {A = Packet}) e in
        let (n, count, same) =
          xmit_pending_lem s s.pending s.outgoing s.sent (length s.outgoing) (pending-InRow s o)
            o.fits (omega arith) in
        (n, count, rw (ap tail_packet e, xmit_pkts) (ap some same))
    go (pkt ∷ pkts) e =
        let size : length s.outgoing ≡ suc (length pkts) = ap (length {A = Packet}) e in
        let all = length-append s.outgoing s.pending in
        let (last, found, at) =
          tail_packet-InRow s.sq_psn pkt pkts o.fits
            (subst (InRow s.sq_psn) e (InRow-take s.sq_psn s.outgoing s.pending o.row)) in
        let sign = window_left_sign s last (length pkts) at o.fits (omega arith) in
        let within : (ltb (netpkt_psn last) s.sq_psn || ltb s.psn (netpkt_psn last)) ≡ false =
          ordered (length pkts) at o.next (omega arith) in
        elim (Bool-cases (length pkts == 8)) [
          | inl full ↦ (
            0,
            omega (arith, (==_iff (length pkts) 8).0 full),
            rw (ap tail_packet e ∙ found, within, sign.1, sign.0 ∙ full, xmit_pkts)
                (ap₂ (λ out t. some (with_queues s out s.pending t)) (sym (append-nil s.outgoing))
                  (sym (append-nil s.sent))),
          )
          | inr more ↦
              let ne : length pkts ≢ 8 = ==→ne (length pkts) 8 more in
              let (n, count, same) =
                xmit_pending_lem s s.pending s.outgoing s.sent (length s.outgoing)
                  (pending-InRow s o) o.fits (omega arith) in
              (
                n,
                count,
                rw (ap tail_packet e ∙ found, within, sign.1, sign.0 ∙ more, xmit_pkts)
                    (ap some same),
              )
        ]
      where
        ordered :
            {last : ℕ} (k : ℕ)
            → last ≡ after s.sq_psn k
            → s.psn ≡ after s.sq_psn (length (queued s))
            → k < length (queued s)
            → (ltb last s.sq_psn || ltb s.psn last) ≡ false
        ordered k at next lt = ground arith

-- For queues in order with some and up to 9 packets on their way, whose sequence numbers go round
-- zero, an assertion of `roce_xmit_pkts` fails.
pub xmit_pkts-none :
    (s : Requester)
    → InOrder s
    → s.outgoing ≢ []
    → length s.outgoing ≤ 9
    → length (queued s) < 2 ^ 23
    → 2 ^ 24 ≤ s.sq_psn + length (queued s)
    → xmit_pkts s ≡ none
unfolding xmit_pkts
xmit_pkts-none s o some_out small short round = go s.outgoing refl
  where
    go : (out : List Packet) → s.outgoing ≡ out → xmit_pkts s ≡ none
    go [] e = absurd (some_out e)
    go (pkt ∷ pkts) e =
        let size : length s.outgoing ≡ suc (length pkts) = ap (length {A = Packet}) e in
        let (last, found, at) =
          tail_packet-InRow s.sq_psn pkt pkts o.fits
            (subst (InRow s.sq_psn) e (InRow-take s.sq_psn s.outgoing s.pending o.row)) in
        rw
          (
            ap tail_packet e ∙ found,
            crossed (length pkts) at o.next (omega (arith, length-append s.outgoing s.pending)),
            xmit_pkts,
          )
          refl
      where
        crossed :
            {last : ℕ} (k : ℕ)
            → last ≡ after s.sq_psn k
            → s.psn ≡ after s.sq_psn (length (queued s))
            → k < length (queued s)
            → (ltb last s.sq_psn || ltb s.psn last) ≡ true
        crossed k at next lt = ground (arith, o.fits)
