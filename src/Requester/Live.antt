-- ===== src/Requester/Live.antt =====
-- Queues that `roce_handle_ack` and `roce_xmit_pkts` keep going: what an acknowledgement of a
-- packet on its way makes of them.
use libroce.Base.{
  ℕ, suc, ◌+◌, ◌-◌, ◌^◌, ◌≤◌, ◌<◌, ◌≡◌, ◌⊎◌, refl, sym, ap, ap₂, ◌∙◌, subst, inl, inr, ◌++◌, none,
  some, Bool-cases, append_assoc, arith, length, take, drop, min, length-append, length-take,
  length-drop, take-append-drop,
}
use libroce.Psn.{compare_psn, is_positive, is_negative}
use libroce.Psn.Order.{after}
use libroce.Requester.{Packet, Requester}
use libroce.Requester.Queue.{ack, handle_ack, xmit_pkts, handle_acknowledge}
use libroce.Requester.Window.{InRow, queued, InOrder, with_queues, xmit_pkts-Sent}
use libroce.Requester.Acks.{Shifted, Shifts}
use libroce.Requester.Handled.{handle_ack-Shifts}
use libroce.Requester.Owned.{OwnedBy, owed, Ended}
use libroce.Requester.Ends.{acked-Ends}

handle_ack-Ends :
    (s : Requester) (psn : ℕ)
    → OwnedBy s (queued s)
    → (s' : Requester) × (handle_ack s psn ≡ some s') × Ended (s'.outgoing ++ s.pending) s s'
unfolding handle_ack
handle_ack-Ends s psn o = elim (Bool-cases (is_positive (compare_psn s.sq_psn psn))) [
  | inl old ↦ (s, rw (old, handle_ack) refl, nothing)
  | inr since ↦ elim (Bool-cases (is_negative (compare_psn s.psn psn))) [
    | inl early ↦ (s, rw (since, early, handle_ack) refl, nothing)
    | inr known ↦
        let (s', r, h) = acked-Ends s s.outgoing s.pending psn refl o in
        (s', rw (since, known, handle_ack) r, h)
  ]
]
  where
    nothing : Ended (queued s) s s
    nothing = record { owned = o; owed_same = refl; sig_same = refl }

-- A queue pair whose packets are in order and of its work requests, with a window that is full or
-- holds all of them, and whose sequence numbers do not go round zero.
pub record IsLive (s : Requester) : Type 0 where
  pub order : InOrder s
  pub owned : OwnedBy s (queued s)
  pub window : length s.outgoing ≤ 9
  pub full : (length s.pending ≡ 0) ⊎ (length s.outgoing ≡ 9)
  pub straight : s.sq_psn + length (queued s) < 2 ^ 24
  pub small : length (queued s) < 2 ^ 22

-- What `n` packets that are acknowledged change.
pub record Passed (n : ℕ) (s s' : Requester) : Type 0 where
  pub left : length (queued s') ≡ length (queued s) - n
  pub psn : s'.psn ≡ s.psn
  pub transmitted : s'.sent ++ s'.pending ≡ s.sent ++ s.pending
  pub owed_same : owed s' ≡ owed s

-- Packets that go from one queue to the other.
requeued : (s : Requester) (n : ℕ) → (s.outgoing ++ take n s.pending) ++ drop n s.pending ≡ queued s
requeued s n =
    append_assoc s.outgoing (take n s.pending) (drop n s.pending)
    ∙ ap (λ q. s.outgoing ++ q) (take-append-drop n s.pending)

-- `roce_xmit_pkts` fills the window.
pub xmit_pkts-IsLive :
    (t : Requester)
    → InOrder t
    → OwnedBy t (queued t)
    → length t.outgoing ≤ 9
    → t.sq_psn + length (queued t) < 2 ^ 24
    → length (queued t) < 2 ^ 22
    → (u : Requester) × (xmit_pkts t ≡ some u) × IsLive u × Passed 0 t u × (u.sq_psn ≡ t.sq_psn)
xmit_pkts-IsLive t o owned window straight small =
    let (n, size, sends) = xmit_pkts-Sent t o window straight in
    let u =
      with_queues t (t.outgoing ++ take n t.pending) (drop n t.pending)
        (t.sent ++ take n t.pending) in
    let again : queued u ≡ queued t = requeued t n in
    let count : length (queued u) ≡ length (queued t) = ap (length {A = Packet}) again in
    let out : length u.outgoing ≡ length t.outgoing + min n (length t.pending) =
      length-append t.outgoing (take n t.pending)
      ∙ ap (λ k. length t.outgoing + k) (length-take n t.pending) in
    (
      u,
      sends,
      record {
        order = record {
          row = subst (InRow t.sq_psn) (sym again) o.row;
          next = o.next ∙ ap (after t.sq_psn) (sym count);
          fits = o.fits;
        };
        owned = subst (OwnedBy t) (sym again) owned;
        window = omega (arith, out);
        full = filled n size (length-drop n t.pending) out;
        straight = omega (arith, count);
        small = omega (arith, count);
      },
      record {
        left = omega (arith, count);
        psn = refl;
        transmitted =
            append_assoc t.sent (take n t.pending) (drop n t.pending)
            ∙ ap (λ q. t.sent ++ q) (take-append-drop n t.pending);
        owed_same = refl;
      },
      refl,
    )
  where
    filled :
        (n : ℕ) {pending outgoing : ℕ}
        → n ≡ min (length t.pending) (9 - length t.outgoing)
        → pending ≡ length t.pending - n
        → outgoing ≡ length t.outgoing + min n (length t.pending)
        → (pending ≡ 0) ⊎ (outgoing ≡ 9)
    filled n size p out = omega (arith, window)

-- An acknowledgement of a packet on its way.
pub acknowledged :
    (s : Requester) (m : ℕ)
    → IsLive s
    → m < length s.outgoing
    → (u : Requester) × (handle_acknowledge s ack (after s.sq_psn m) ≡ some u)
      × IsLive u
      × Passed (suc m) s u
unfolding handle_acknowledge
acknowledged s m l lt =
    let (t, same, h) = handle_ack-Ends s (after s.sq_psn m) l.owned in
    let acks = (handle_ack-Shifts s l.order l.small).0 m lt in
    let shifted : Shifted (suc m) s t = subst (Shifts (suc m) s) same acks.0 in
    let out : length t.outgoing ≡ length s.outgoing - suc m =
      ap (length {A = Packet}) shifted.outgoing ∙ length-drop (suc m) s.outgoing in
    let count : length (queued t) ≡ length (queued s) - suc m = omega (
      arith,
      out,
      length-append s.outgoing s.pending,
      length-append t.outgoing t.pending,
      ap (length {A = Packet}) shifted.pending,
    ) in
    let (u, sends, live, p, e) =
      xmit_pkts-IsLive t (acks.1 t same)
        (subst (λ q. OwnedBy t (t.outgoing ++ q)) (sym shifted.pending) h.owned)
        (omega (arith, l.window, out))
        (omega (arith, l.straight, shifted.sq_psn, count, length-append s.outgoing s.pending))
        (omega (arith, l.small, count)) in
    (
      u,
      ap (λ r. elim r [ none ↦ none | some t ↦ xmit_pkts t ]) same ∙ sends,
      live,
      record {
        left = omega (arith, p.left, count);
        psn = p.psn ∙ shifted.psn;
        transmitted = p.transmitted ∙ ap₂ ◌++◌ shifted.sent shifted.pending;
        owed_same = p.owed_same ∙ h.owed_same;
      },
    )
