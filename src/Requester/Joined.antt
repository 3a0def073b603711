-- ===== src/Requester/Joined.antt =====
-- `roce_request_rc` for a message of several packets: what it makes of the queues.
use Prim.{tt}
use libroce.Base.{
  ℕ, suc, ◌+◌, ◌*◌, ◌^◌, ◌≤◌, ◌<◌, ◌≡◌, ◌≢◌, refl, sym, ap, ◌∙◌, subst, List, [], ◌∷◌, ◌++◌, none,
  some, Bool, false, append_assoc, append-nil, arith, length, replicate, length-append, length-map,
  length-replicate, Option,
}
use libroce.Mr.{Mrs}
use libroce.Pd.{Pds}
use libroce.Psn.Order.{after}
use libroce.Requester.{Packet, Ctx, Requester, Outcome, failed, endless, done}
use libroce.Requester.Build.{Ending}
use libroce.Requester.Sends.{IsMessage, Sends}
use libroce.Requester.Queue.{complete_head, start, xmit_pkts}
use libroce.Requester.Window.{InRow, queued, InOrder}
use libroce.Requester.Owned.{
  is_gone, IsReported, OwnedBy, due_one, due, ids_of, owed, complete_wrs-Owned, due-complete_wrs,
}
use libroce.Requester.Live.{IsLive, xmit_pkts-IsLive}
use libroce.Requester.Posted.{packets-InRow, middles-InRow, InRow-join, release_all, Owned-append}
use libroce.Wr.{SendWr}

due-append : (all : Bool) (xs ys : List SendWr) → due all (xs ++ ys) ≡ due all xs ++ due all ys
due-append all [] ys = refl
due-append all (x ∷ xs) ys =
    ap (λ d. due_one all x ++ d) (due-append all xs ys)
    ∙ sym (append_assoc (due_one all x) (due all xs) (due all ys))

-- A new work request that can end: it is not null, has no error, is to be reported, and the
-- references of all work requests in the queue and its own can be put back.
pub record CanEnd (s : Requester) (w : SendWr) : Type 0 where
  pub stays : is_gone w ≡ false
  pub address : w.address ≢ 0
  pub reported : IsReported w
  pub left : Pds × Mrs
  pub released : release_all s.pds s.mrs (s.wrs ++ w ∷ []) ≡ some left

-- The work request stands behind the others, with packets behind theirs.
abbrev pub Joins : Requester → SendWr → Outcome → Type 0
Joins s w failed = Unit
Joins s w endless = ⊥
Joins s w (done s') = IsLive s' × (owed s' ≡ owed s ++ due_one s.sq_sig_all w)

-- `s` with the work request in its queue.
abbrev pub with_wr : Requester → SendWr → Requester
with_wr s w = record s { wrs = s.wrs ++ w ∷ [] }

-- The end of `start`.
abbrev began : Option Requester → Outcome
began none = failed
began (some s) = done (complete_head s)

complete_head-IsLive : (s : Requester) → IsLive s → IsLive (complete_head s)
unfolding complete_head
complete_head-IsLive s l = record {
  order = record { row = l.order.row; next = l.order.next; fits = l.order.fits };
  owned = complete_wrs-Owned s.pds s.mrs s.wrs (queued s) l.owned;
  window = l.window;
  full = l.full;
  straight = l.straight;
  small = l.small;
}

complete_head-owed : (s : Requester) → owed (complete_head s) ≡ owed s
unfolding complete_head
complete_head-owed s = ap (λ d. ids_of s ++ d) (due-complete_wrs s.sq_sig_all s.wrs)

start_lem : (s : Requester) → start (done s) ≡ began (xmit_pkts s)
unfolding start
start_lem s = refl

module _ (c : Ctx) (s : Requester) (w : SendWr) (ib mtu payload : ℕ) (head last : Ending)
    (middle : ℕ) (live : IsLive s) (ends : CanEnd s w) (positive : 0 < mtu)
    (straight : s.sq_psn + length (queued s) + payload < 2 ^ 24)
    (small : length (queued s) + payload < 2 ^ 22) where
  module _ (pkts : List Packet)
      (m : IsMessage c (with_wr s w) w ib mtu head middle last payload pkts) where
    message-InRow : InRow s.psn pkts
    message-InRow = packets-InRow s.psn pkts _ m.headers (
      omega (arith, live.order.next),
      middles-InRow ib middle s.dest_qp_num m.n (after s.psn 1) _ (omega arith) (omega arith),
    )

    -- One packet, `n` in the middle and one, of which each carries a byte at least.
    few : length pkts ≤ payload
    few = omega (
      arith,
      ap (length {A = ℕ}) m.owners,
      length-map pkts (λ pkt. pkt.opaque),
      length-append (replicate m.n 0) (w.address ∷ []),
      length-replicate {A = ℕ} m.n 0,
      m.counted,
      m.some_left,
      positive,
      at_least m.n,
    )
      where
        at_least : (n : ℕ) → n ≤ n * mtu
        at_least n = grind arith

    abbrev joined : Requester
    joined = record (with_wr s w) { pending = s.pending ++ pkts; psn = after s.psn (length pkts) }

    all : queued joined ≡ queued s ++ pkts
    all = sym (append_assoc s.outgoing s.pending pkts)

    count : length (queued joined) ≡ length (queued s) + length pkts
    count = ap (length {A = Packet}) all ∙ length-append (queued s) pkts

    joined-InOrder : InOrder joined
    joined-InOrder = record {
      row = subst (InRow s.sq_psn) (sym all) (
          InRow-join s.sq_psn (queued s) pkts live.order.fits live.order.row
            (subst (λ p. InRow p pkts) live.order.next message-InRow));
      next = omega (arith, live.order.next, count);
      fits = live.order.fits;
    }

    joined-Owned : OwnedBy joined (queued joined)
    joined-Owned = subst (OwnedBy joined) (sym all) (
        Owned-append s.pds s.mrs s.wrs (queued s) w (suc m.n) pkts ends.left ends.stays ends.address
          ends.reported m.owners ends.released live.owned)

    joined-owed : owed joined ≡ owed s ++ due_one s.sq_sig_all w
    joined-owed =
        ap (λ d. ids_of s ++ d)
          (due-append s.sq_sig_all s.wrs (w ∷ [])
            ∙ ap (λ d. due s.sq_sig_all s.wrs ++ d) (append-nil (due_one s.sq_sig_all w)))
        ∙ sym (append_assoc (ids_of s) (due s.sq_sig_all s.wrs) (due_one s.sq_sig_all w))

    start-Joins : Joins s w (start (done joined))
    start-Joins =
        let (u, sends, l, p, e) =
          xmit_pkts-IsLive joined joined-InOrder joined-Owned live.window
            (omega (arith, count, few)) (omega (arith, count, few)) in
        subst (Joins s w) (sym (start_lem joined ∙ ap began sends))
          (complete_head-IsLive u l, complete_head-owed u ∙ p.owed_same ∙ joined-owed)

  pub Sends-Joins :
      (o : Outcome)
      → Sends c (with_wr s w) w ib mtu head middle last payload o
      → Joins s w (start o)
  unfolding start
  Sends-Joins failed h = tt
  Sends-Joins endless h = h
  Sends-Joins (done s') h = subst (λ t. Joins s w (start (done t))) (sym h.1) (start-Joins h.0 h.2)
