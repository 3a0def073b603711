-- ===== src/Requester/Handled.antt =====
-- `roce_handle_ack` as a whole: the acknowledgements that move the window, and those that it
-- ignores.
use libroce.Base.{
  ℕ, suc, ◌+◌, ◌-◌, ◌^◌, ◌≤◌, ◌<◌, ◌≡◌, refl, sym, ap, ap₂, ◌∙◌, subst, inl, inr, ◌++◌, some, true,
  false, Bool-cases, length, take, drop, arith, append_assoc, length-append, length-take,
  length-drop, ◌⊎◌, take-append-drop, ltb, leb, ◌&&◌,
}
use libroce.Psn.{compare_psn, is_positive, is_negative}
use libroce.Psn.Order.{after, ahead, compare_psn_sign}
use libroce.Requester.{Packet, Requester}
use libroce.Requester.Queue.{handle_ack}
use libroce.Requester.Window.{InRow, InRow-append, InRow-take, InOrder, queued}
use libroce.Requester.Acks.{Shifted, Shifts, acked-Shifts}

-- What an acknowledgement of the `m`th packet on its way makes of queues in order.
Shifts-InOrder :
    (s s' : Requester) (n : ℕ) → InOrder s → n ≤ length s.outgoing → Shifted n s s' → InOrder s'
Shifts-InOrder s s' n o le h = record {
  row =
      subst (λ xs. InRow s'.sq_psn xs) (ap₂ ◌++◌ (sym h.outgoing) (sym h.pending))
        (subst (λ p. InRow p (drop n s.outgoing ++ s.pending)) (sym h.sq_psn) rest_row);
  next = omega (arith, h.psn, h.sq_psn, o.next, counted, length-append s.outgoing s.pending);
  fits = omega (arith, h.sq_psn);
}
  where
    split : queued s ≡ take n s.outgoing ++ (drop n s.outgoing ++ s.pending)
    split =
        ap (λ xs. xs ++ s.pending) (sym (take-append-drop n s.outgoing))
        ∙ append_assoc (take n s.outgoing) (drop n s.outgoing) s.pending

    zero_eq : s.sq_psn ≡ after s.sq_psn 0
    zero_eq = omega (arith, o.fits)

    taken : length (take n s.outgoing) ≡ n
    taken = length-take n s.outgoing ∙ omega arith

    rest_row : InRow (after s.sq_psn n) (drop n s.outgoing ++ s.pending)
    rest_row =
        subst (λ k. InRow (after s.sq_psn k) (drop n s.outgoing ++ s.pending)) taken
          (InRow-append s.sq_psn (take n s.outgoing) (drop n s.outgoing ++ s.pending) (
            subst (InRow (after s.sq_psn 0)) split (subst (λ p. InRow p (queued s)) zero_eq o.row)))

    counted : length (queued s') ≡ (length s.outgoing - n) + length s.pending
    counted = omega (
      arith,
      length-append s'.outgoing s'.pending,
      ap (length {A = Packet}) h.outgoing,
      length-drop n s.outgoing,
      ap (length {A = Packet}) h.pending,
    )

-- For queues in order, of less than 2 ^ 22 packets: an acknowledgement of the `m`th packet on its
-- way (counted from 0) takes off the packets up to it and no other, and moves the window behind it,
-- unless an assertion fails, and leaves queues in order; one of a number up to 2 ^ 22 before the
-- window or behind the next number to be given changes nothing.
pub handle_ack-Shifts :
    (s : Requester)
    → InOrder s
    → length (queued s) < 2 ^ 22
    → ((m : ℕ)
        → m < length s.outgoing
        → Shifts (suc m) s (handle_ack s (after s.sq_psn m))
          × ((s' : Requester) → handle_ack s (after s.sq_psn m) ≡ some s' → InOrder s'))
      × ((psn k : ℕ)
          → 0 < k
          → k < 2 ^ 22
          → (s.sq_psn ≡ after psn k) ⊎ (psn ≡ after s.psn k)
          → handle_ack s psn ≡ some s)
unfolding handle_ack
handle_ack-Shifts s o small = (
  (λ m le.
      let shifts : Shifts (suc m) s (handle_ack s (after s.sq_psn m)) =
        rw (not_before m le, not_behind m le, handle_ack)
          (acked-Shifts s s.outgoing m (after s.sq_psn m) refl o.fits
            (InRow-take s.sq_psn s.outgoing s.pending o.row) le (omega (arith, all)) refl) in
      (
        shifts,
        λ s' e. Shifts-InOrder s s' (suc m) o (omega arith) (subst (Shifts (suc m) s) e shifts),
      )),
  λ psn k lo hi place. elim place [
    | inl old ↦ rw (before psn k lo hi old, handle_ack) refl
    | inr new ↦ elim (Bool-cases (is_positive (compare_psn s.sq_psn psn))) [
      | inl t ↦ rw (t, handle_ack) refl
      | inr t ↦ rw (t, behind psn k lo hi new, handle_ack) refl
    ]
  ],
)
  where
    all : length (queued s) ≡ length s.outgoing + length s.pending
    all = length-append s.outgoing s.pending

    not_before :
        (m : ℕ)
        → m < length s.outgoing
        → is_positive (compare_psn s.sq_psn (after s.sq_psn m)) ≡ false
    not_before m le =
        (compare_psn_sign s.sq_psn (after s.sq_psn m)).1
        ∙ out (ahead s.sq_psn (after s.sq_psn m)) (omega (arith, o.fits, all))
      where
        out : (d : ℕ) → ((d ≡ 0) ⊎ (2 ^ 23 ≤ d)) → (ltb 0 d && ltb d (2 ^ 23)) ≡ false
        out d h = ground arith

    not_behind :
        (m : ℕ) → m < length s.outgoing → is_negative (compare_psn s.psn (after s.sq_psn m)) ≡ false
    not_behind m le =
        (compare_psn_sign s.psn (after s.sq_psn m)).2
        ∙ near (ahead s.psn (after s.sq_psn m)) (omega (arith, o.next, o.fits, all))
      where
        near : (d : ℕ) → d < 2 ^ 23 → leb (2 ^ 23) d ≡ false
        near d h = ground arith

    before :
        (psn k : ℕ)
        → 0 < k
        → k < 2 ^ 22
        → s.sq_psn ≡ after psn k
        → is_positive (compare_psn s.sq_psn psn) ≡ true
    before psn k lo hi old =
        (compare_psn_sign s.sq_psn psn).1 ∙ near (ahead s.sq_psn psn) (omega arith) (omega arith)
      where
        near : (d : ℕ) → 0 < d → d < 2 ^ 23 → (ltb 0 d && ltb d (2 ^ 23)) ≡ true
        near d l h = ground arith

    behind :
        (psn k : ℕ)
        → 0 < k
        → k < 2 ^ 22
        → psn ≡ after s.psn k
        → is_negative (compare_psn s.psn psn) ≡ true
    behind psn k lo hi new = (compare_psn_sign s.psn psn).2 ∙ far (ahead s.psn psn) (omega arith)
      where
        far : (d : ℕ) → 2 ^ 23 ≤ d → leb (2 ^ 23) d ≡ true
        far d h = ground arith
