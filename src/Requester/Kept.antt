-- ===== src/Requester/Kept.antt =====
-- The end of a work request changes none of the queues of packets.
use Prim.{tt}
use libroce.Base.{
  ◌≡◌, refl, ◌∙◌, subst, inl, inr, List, [], ◌∷◌, Option, none, some, Bool-cases, Option-cases,
  ◌||◌, ◌==◌,
}
use libroce.Sge.{sge_len}
use libroce.Mr.Life.{put_mrs}
use libroce.Psn.{psn_inc}
use libroce.Requester.{Packet, Requester}
use libroce.Requester.Queue.{
  complete_head, report, free_send_wr, complete_owner, rc_complete_send_wr,
}
use libroce.Wr.{SendWr, has, signaled, send_wr_opcode_to_wc}

-- The same packets, numbers and transmissions.
pub record IsKept (s s' : Requester) : Type 0 where
  pub sq_psn : s'.sq_psn ≡ s.sq_psn
  pub psn : s'.psn ≡ s.psn
  pub outgoing : s'.outgoing ≡ s.outgoing
  pub pending : s'.pending ≡ s.pending
  pub sent : s'.sent ≡ s.sent

-- Nothing of the queues of packets changes, unless an assertion fails.
abbrev pub Keeps : Requester → Option Requester → Type 0
Keeps s none = Unit
Keeps s (some s') = IsKept s s'

same : (s : Requester) → IsKept s s
same s = record { sq_psn = refl; psn = refl; outgoing = refl; pending = refl; sent = refl }

report-Keeps : (s : Requester) (w : SendWr) → Keeps s (report s w)
unfolding report
report-Keeps s w = elim (Bool-cases (s.sq_sig_all || has w.send_flags signaled)) [
  | inr silent ↦ rw silent (same s)
  | inl asked ↦ elim (Option-cases (sge_len w.sges 0 0)) [
    | inl n ↦ rw (asked, n) tt
    | inr (len, l) ↦ elim (Option-cases (send_wr_opcode_to_wc w.opcode)) [
      | inl n ↦ rw (asked, l, n) tt
      | inr ((opcode, flags), o) ↦
          rw (asked, l, o)
            (record { sq_psn = refl; psn = refl; outgoing = refl; pending = refl; sent = refl })
    ]
  ]
]

free_send_wr-Keeps : (s : Requester) (w : SendWr) → Keeps s (free_send_wr s w)
unfolding free_send_wr
free_send_wr-Keeps s w = elim (Bool-cases w.mapped) [
  | inr bare ↦ rw bare (same s)
  | inl mapped ↦ elim (Option-cases (put_mrs s.pds s.mrs w.sges)) [
    | inl n ↦ rw (mapped, n) tt
    | inr (r, p) ↦
        rw (mapped, p)
          (record { sq_psn = refl; psn = refl; outgoing = refl; pending = refl; sent = refl })
  ]
]

IsKept-trans : {s s' s'' : Requester} → IsKept s s' → IsKept s' s'' → IsKept s s''
IsKept-trans a b = record {
  sq_psn = b.sq_psn ∙ a.sq_psn;
  psn = b.psn ∙ a.psn;
  outgoing = b.outgoing ∙ a.outgoing;
  pending = b.pending ∙ a.pending;
  sent = b.sent ∙ a.sent;
}

Keeps-trans : {s t : Requester} (r : Option Requester) → IsKept s t → Keeps t r → Keeps s r
Keeps-trans none a k = tt
Keeps-trans (some s') a k = IsKept-trans a k

complete_owner-Keeps : (s : Requester) (pkt : Packet) → Keeps s (complete_owner s pkt)
unfolding complete_owner complete_head
complete_owner-Keeps s pkt = go s.wrs refl
  where
    go : (wrs : List SendWr) → s.wrs ≡ wrs → Keeps s (complete_owner s pkt)
    go [] e = rw (e, Keeps, complete_owner) tt
    go (w ∷ ws) e = elim (Bool-cases (w.address == pkt.opaque)) [
      | inr other ↦ rw (e, other, Keeps, complete_owner) tt
      | inl owner ↦ elim (Option-cases (report (record s { wrs = ws }) w)) [
        | inl n ↦ rw (e, owner, n, Keeps, complete_owner) tt
        | inr (s', r) ↦ elim (Option-cases (free_send_wr s' w)) [
          | inl n ↦ rw (e, owner, r, n, Keeps, complete_owner) tt
          | inr (s'', f) ↦
              let t : Requester = record s { wrs = ws } in
              let a : IsKept t s' = subst (Keeps t) r (report-Keeps t w) in
              let b : IsKept s' s'' = subst (Keeps s') f (free_send_wr-Keeps s' w) in
              rw (e, owner, r, f, Keeps, complete_owner) (popped (IsKept-trans a b))
        ]
      ]
    ]
      where
        popped : {t : Requester} → IsKept (record s { wrs = ws }) t → IsKept s (complete_head t)
        popped k = record {
          sq_psn = k.sq_psn;
          psn = k.psn;
          outgoing = k.outgoing;
          pending = k.pending;
          sent = k.sent;
        }

pub rc_complete_send_wr-Keeps :
    (s : Requester) (pkt : Packet)
    → Keeps (record s { sq_psn = psn_inc s.sq_psn }) (rc_complete_send_wr s pkt)
unfolding rc_complete_send_wr complete_head
rc_complete_send_wr-Keeps s pkt = elim (Bool-cases (pkt.opaque == 0)) [
  | inl part ↦ rw (part, Keeps, rc_complete_send_wr) kept
  | inr end ↦ rw (end, rc_complete_send_wr) (Keeps-trans _ kept (complete_owner-Keeps next pkt))
]
  where
    next : Requester
    next = record (complete_head s) { sq_psn = psn_inc s.sq_psn }

    kept : IsKept (record s { sq_psn = psn_inc s.sq_psn }) next
    kept = record { sq_psn = refl; psn = refl; outgoing = refl; pending = refl; sent = refl }
