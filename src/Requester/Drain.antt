-- ===== src/Requester/Drain.antt =====
-- Acknowledgements until nothing is on its way: `roce_handle_ack` and `roce_xmit_pkts` in turns.
use libroce.Base.{
  ℕ, zero, suc, ◌%◌, ◌≤◌, ◌≡◌, refl, sym, ap, ap₂, ◌∙◌, List, [], ◌∷◌, ◌++◌, Option, none, some,
  append-nil, arith, length, length-append,
}
use native.Mathlib.Nat.{mod-lt}
use libroce.Psn.Order.{after}
use libroce.Requester.{Packet, Requester}
use libroce.Requester.Queue.{ack, handle_acknowledge, complete_wrs}
use libroce.Requester.Window.{queued}
use libroce.Requester.Owned.{ids_of, owed, nothing_left}
use libroce.Requester.Live.{IsLive, Passed, acknowledged}

-- `n` rounds, unless nothing is on its way before: in each the peer acknowledges a packet that is
-- on its way, which one is up to it.
abbrev pub rounds : (ℕ → ℕ) → ℕ → Requester → Option Requester
rounds peer zero s = some s
rounds peer (suc n) s = elim s.outgoing [
  | [] ↦ some s
  | _ ∷ _ ↦ elim (handle_acknowledge s ack (after s.sq_psn (peer n % length s.outgoing))) [
    | none ↦ none
    | some s' ↦ rounds peer n s'
  ]
]

-- Nothing waits, nothing is on its way, and every work request has ended.
pub record IsDrained (s s' : Requester) : Type 0 where
  pub pending : s'.pending ≡ []
  pub outgoing : s'.outgoing ≡ []
  pub sq_psn : s'.sq_psn ≡ s.psn
  pub sent : s'.sent ≡ s.sent ++ s.pending
  pub wrs : complete_wrs s'.wrs ≡ []
  pub completed : ids_of s' ≡ owed s

none_of : (pkts : List Packet) → length pkts ≡ 0 → pkts ≡ []
none_of [] e = refl
none_of (pkt ∷ pkts) e = absurd (omega (arith, e))

stopped : (s : Requester) → IsLive s → length s.outgoing ≡ 0 → length s.pending ≡ 0 → IsDrained s s
stopped s l out wait =
    let pending = none_of s.pending wait in
    let outgoing = none_of s.outgoing out in
    let rest =
      nothing_left s.pds s.mrs s.wrs (queued s) (ap₂ ◌++◌ outgoing pending) l.owned s.sq_sig_all in
    record {
      pending = pending;
      outgoing = outgoing;
      sq_psn =
          omega (arith, l.order.next, l.order.fits, length-append s.outgoing s.pending, out, wait);
      sent = sym (append-nil s.sent) ∙ ap (λ q. s.sent ++ q) (sym pending);
      wrs = rest.0;
      completed = sym (append-nil (ids_of s)) ∙ ap (λ d. ids_of s ++ d) (sym rest.1);
    }

later : {n : ℕ} {s u s' : Requester} → Passed n s u → IsDrained u s' → IsDrained s s'
later p d = record {
  pending = d.pending;
  outgoing = d.outgoing;
  sq_psn = d.sq_psn ∙ p.psn;
  sent = d.sent ∙ p.transmitted;
  wrs = d.wrs;
  completed = d.completed ∙ p.owed_same;
}

one_round :
    (peer : ℕ → ℕ) (n : ℕ) (s u : Requester) {pkt : Packet} {pkts : List Packet}
    → s.outgoing ≡ pkt ∷ pkts
    → handle_acknowledge s ack (after s.sq_psn (peer n % length s.outgoing)) ≡ some u
    → rounds peer (suc n) s ≡ rounds peer n u
one_round peer n s u e acks =
    let step : Option Requester → Option Requester =
      λ r. elim r [ none ↦ none | some s' ↦ rounds peer n s' ] in
    ap
      (λ out. elim out [
        | [] ↦ some s
        | _ ∷ _ ↦ step (handle_acknowledge s ack (after s.sq_psn (peer n % length s.outgoing)))
      ])
      e
    ∙ ap step acks

-- For a queue pair with its packets in order, in a window that is full or holds them all, with less
-- than 2 ^ 22 packets whose sequence numbers do not go round zero, where each packet that ends a
-- work request ends the next of the queue that is neither local nor failed, which has a completion
-- and references that can be put back: if as often as there are packets, or more often, the peer
-- acknowledges a packet on its way, whichever it likes, then no assertion fails, and in the end no
-- packet waits or is on its way, each that waited has been transmitted once and in its order, the
-- window has moved to the next number to be given, no work request is left but those that are local
-- or failed, and the identifiers of the others that ask for a completion have been reported, each
-- once and in the order of the queue.
pub rounds-IsDrained :
    (peer : ℕ → ℕ) (n : ℕ) (s : Requester)
    → IsLive s
    → length (queued s) ≤ n
    → (s' : Requester) × (rounds peer n s ≡ some s') × IsDrained s s'
rounds-IsDrained peer zero s l enough =
    let all = length-append s.outgoing s.pending in
    (s, refl, stopped s l (omega (arith, all)) (omega (arith, all)))
rounds-IsDrained peer (suc n) s l enough = go s.outgoing refl (rounds-IsDrained peer n)
  where
    go :
        (out : List Packet)
        → s.outgoing ≡ out
        → ((u : Requester)
            → IsLive u
            → length (queued u) ≤ n
            → (s' : Requester) × (rounds peer n u ≡ some s') × IsDrained u s')
        → (s' : Requester) × (rounds peer (suc n) s ≡ some s') × IsDrained s s'
    go [] e again =
        let size : length s.outgoing ≡ 0 = ap (length {A = Packet}) e in
        (s, rw e refl, stopped s l size (omega (arith, l.full)))
    go (pkt ∷ pkts) e again =
        let size : length s.outgoing ≡ suc (length pkts) = ap (length {A = Packet}) e in
        let (u, acks, live, p) =
          acknowledged s (peer n % length s.outgoing) l (mod-lt (peer n) (omega (arith, size))) in
        let (s', same, d) = again u live (omega (arith, p.left)) in
        (s', one_round peer n s u e acks ∙ same, later p d)
