-- ===== src/Requester/Ends.antt =====
-- `roce_rc_complete_send_wr` and the loop of `roce_handle_ack`, for packets that are of the work
-- requests of the queue.
use libroce.Base.{
  ℕ, ◌==◌, ◌≡◌, refl, sym, ap, ap₂, ◌∙◌, subst, inl, inr, List, [], ◌∷◌, ◌++◌, none, some, false,
  Bool-cases, append_assoc, ==_iff, when_true, when_false, ne→==, if◌then◌else◌,
}
use libroce.Mr.{Mrs}
use libroce.Pd.{Pds}
use libroce.Psn.{compare_psn, is_positive, psn_inc}
use libroce.Requester.{Packet, Requester, netpkt_psn}
use libroce.Requester.Queue.{
  complete_wrs, complete_head, free_send_wr, complete_owner, rc_complete_send_wr, acked,
}
use libroce.Requester.Kept.{IsKept, Keeps, rc_complete_send_wr-Keeps}
use libroce.Requester.Owned.{
  is_gone, IsReported, released, Owned, part, gone, whole, OwnedBy, due_one, due, ids_of,
  complete_wrs-Owned, due_one-gone, stays_lem, due-complete_wrs, report_lem, Ended, Ends,
}
use libroce.Wr.{SendWr}

free_send_wr_lem :
    (s : Requester) (w : SendWr) (pds : Pds) (mrs : Mrs)
    → released s.pds s.mrs w ≡ some (pds, mrs)
    → free_send_wr s w ≡ some (record s { pds = pds; mrs = mrs })
unfolding free_send_wr
free_send_wr_lem s w pds mrs h = elim (Bool-cases w.mapped) [
  | inl mapped ↦ rw (mapped, sym (when_true w.mapped _ _ mapped) ∙ h) refl
  | inr bare ↦
      when_false w.mapped _ _ bare
      ∙ ap
          (λ r. elim r [ none ↦ none | some (pds, mrs) ↦ some (record s { pds = pds; mrs = mrs }) ])
          (sym (when_false w.mapped _ _ bare) ∙ h)
]

-- The end of the work request at the head of the queue.
complete_owner-Ends :
    (s : Requester) (w : SendWr) (ws : List SendWr) (pkt : Packet) (pkts : List Packet) (pds : Pds)
    (mrs : Mrs)
    → s.wrs ≡ w ∷ ws
    → is_gone w ≡ false
    → pkt.opaque ≡ w.address
    → IsReported w
    → released s.pds s.mrs w ≡ some (pds, mrs)
    → Owned pds mrs ws pkts
    → Ends pkts s (complete_owner s pkt)
unfolding complete_owner complete_head
complete_owner-Ends s w ws pkt pkts pds mrs e stays a r f o =
    let (t, reports, k) = report_lem (record s { wrs = ws }) w stays r in
    let freed = free_send_wr_lem t w pds mrs (ap₂ (λ p m. released p m w) k.pds k.mrs ∙ f) in
    (
      complete_head (record t { pds = pds; mrs = mrs }),
      rw (e, (==_iff w.address pkt.opaque).1 (sym a), reports, freed, complete_owner) refl,
      record {
        owned =
            subst (λ l. Owned pds mrs (complete_wrs l) pkts) (sym k.wrs)
              (complete_wrs-Owned pds mrs ws pkts o);
        owed_same =
            ap₂ (λ i d. i ++ d) k.ids
              (ap₂ (λ b l. due b (complete_wrs l)) k.sig k.wrs ∙ due-complete_wrs s.sq_sig_all ws)
            ∙ append_assoc (ids_of s) (due_one s.sq_sig_all w) (due s.sq_sig_all ws)
            ∙ ap (λ l. ids_of s ++ due s.sq_sig_all l) (sym e);
        sig_same = k.sig;
      },
    )

-- `s` with other objects and other work requests.
abbrev with_wrs : Requester → Pds → Mrs → List SendWr → Requester
with_wrs s pds mrs wrs = record s { pds = pds; mrs = mrs; wrs = wrs }

rc_complete_send_wr_from :
    (s : Requester) (pds : Pds) (mrs : Mrs) (wrs : List SendWr) (pkt : Packet) (pkts : List Packet)
    → Owned pds mrs wrs (pkt ∷ pkts)
    → Ends pkts (with_wrs s pds mrs wrs) (rc_complete_send_wr (with_wrs s pds mrs wrs) pkt)
unfolding rc_complete_send_wr complete_head complete_wrs
rc_complete_send_wr_from s pds mrs wrs pkt pkts (part _ _ _ _ _ z o) = (
  record (complete_head (with_wrs s pds mrs wrs)) { sq_psn = psn_inc s.sq_psn },
  when_true (pkt.opaque == 0) _ _ ((==_iff pkt.opaque 0).1 z),
  record {
    owned = complete_wrs-Owned pds mrs wrs pkts o;
    owed_same = ap (λ d. ids_of s ++ d) (due-complete_wrs s.sq_sig_all wrs);
    sig_same = refl;
  },
)
rc_complete_send_wr_from s pds mrs wrs pkt pkts (gone _ _ w ws _ g o) =
    let (s', same, h) = rc_complete_send_wr_from s pds mrs ws pkt pkts o in
    (
      s',
      ap
            (λ l.
              let t = record s { pds = pds; mrs = mrs; wrs = l; sq_psn = psn_inc s.sq_psn } in
              if pkt.opaque == 0 then some t else complete_owner t pkt)
            (when_true (is_gone w) _ _ g)
          ∙ same,
      record {
        owned = h.owned;
        owed_same =
            h.owed_same
            ∙ ap (λ d. ids_of s ++ (d ++ due s.sq_sig_all ws))
                (sym (due_one-gone s.sq_sig_all w g));
        sig_same = h.sig_same;
      },
    )
rc_complete_send_wr_from s pds mrs wrs pkt pkts (whole _ pds' _ mrs' w ws _ _ stays a n r f o) =
    let next = record (complete_head (with_wrs s pds mrs wrs)) { sq_psn = psn_inc s.sq_psn } in
    let head = stays_lem w ws stays in
    let (s', same, h) = complete_owner-Ends next w ws pkt pkts pds' mrs' head stays a r f o in
    (
      s',
      when_false (pkt.opaque == 0) _ _ (ne→== pkt.opaque 0 (λ z. n (sym a ∙ z))) ∙ same,
      record {
        owned = h.owned;
        owed_same = h.owed_same ∙ ap (λ l. ids_of s ++ due s.sq_sig_all l) head;
        sig_same = h.sig_same;
      },
    )

pub rc_complete_send_wr-Ends :
    (s : Requester) (pkt : Packet) (pkts : List Packet)
    → OwnedBy s (pkt ∷ pkts)
    → Ends pkts s (rc_complete_send_wr s pkt)
rc_complete_send_wr-Ends s pkt pkts o = rc_complete_send_wr_from s s.pds s.mrs s.wrs pkt pkts o

-- The loop ends the work requests of the packets that it takes off, and no assertion fails.
pub acked-Ends :
    (s : Requester) (pkts later : List Packet) (psn : ℕ)
    → s.outgoing ≡ pkts
    → OwnedBy s (pkts ++ later)
    → (s' : Requester) × (acked s pkts psn ≡ some s') × Ended (s'.outgoing ++ later) s s'
unfolding acked
acked-Ends s [] later psn e o = (
  s,
  refl,
  record {
    owned = subst (λ q. OwnedBy s (q ++ later)) (sym e) o;
    owed_same = refl;
    sig_same = refl;
  },
)
acked-Ends s (pkt ∷ pkts) later psn e o =
    elim (Bool-cases (is_positive (compare_psn (netpkt_psn pkt) psn))) [
      | inl behind ↦ (
        s,
        rw (behind, acked) refl,
        record {
          owned = subst (λ q. OwnedBy s (q ++ later)) (sym e) o;
          owed_same = refl;
          sig_same = refl;
        },
      )
      | inr upto ↦
          let t : Requester = record s { outgoing = pkts } in
          let (s', r, h) = rc_complete_send_wr-Ends t pkt (pkts ++ later) o in
          let k : IsKept (record t { sq_psn = psn_inc s.sq_psn }) s' =
            subst (Keeps (record t { sq_psn = psn_inc s.sq_psn })) r
              (rc_complete_send_wr-Keeps t pkt) in
          let (s'', rest, h') = acked-Ends s' pkts later psn k.outgoing h.owned in
          (
            s'',
            rw (upto, r, acked) rest,
            record {
              owned = h'.owned;
              owed_same = h'.owed_same ∙ h.owed_same;
              sig_same = h'.sig_same ∙ h.sig_same;
            },
          )
    ]
