-- ===== src/Requester/Owned.antt =====
-- The packets of a queue pair against its work requests: which packet ends which work request, and
-- what the end of a work request leaves.
use libroce.Base.{
  ℕ, ◌==◌, ◌≡◌, ◌≢◌, refl, sym, ap, ◌∙◌, inl, inr, List, [], ◌∷◌, ◌++◌, Option, some, Bool, true,
  false, Bool-cases, ◌||◌, not, map, if◌then◌else◌, append-nil, when_true, when_false,
}
use mathlib.Core.List.{map-append}
use libroce.Sge.{sge_len}
use libroce.Mr.Life.{put_mrs}
use libroce.Mr.{Mrs}
use libroce.Pd.{Pds}
use libroce.Requester.{Packet, Requester}
use libroce.Requester.Queue.{complete_wrs, report}
use libroce.Wr.{SendWr, WcOpcode, success, has, signaled, send_wr_is_local, send_wr_opcode_to_wc}

-- A work request that `roce_complete_head` takes off.
abbrev pub is_gone : SendWr → Bool
is_gone w = send_wr_is_local w || not (w.error == 0)

-- A work request whose elements have a length and whose operation has a completion.
pub record IsReported (w : SendWr) : Type 0 where
  pub len : ℕ
  pub opcode : WcOpcode
  pub flags : ℕ
  pub has_len : sge_len w.sges 0 0 ≡ some len
  pub has_opcode : send_wr_opcode_to_wc w.opcode ≡ some (opcode, flags)

-- What the end of a work request makes of the protection domains and the regions.
abbrev pub released : Pds → Mrs → SendWr → Option (Pds × Mrs)
released pds mrs w = if w.mapped then put_mrs pds mrs w.sges else some (pds, mrs)

-- Packets and the work requests that they are of, in one order: a packet that ends none, a work
-- request that is gone, or one with the packet that ends it, whose references can be put back.
pub data Owned : Pds → Mrs → List SendWr → List Packet → Type 0 where
  finished : (pds : Pds) (mrs : Mrs) → Owned pds mrs [] []
  part :
      (pds : Pds) (mrs : Mrs) (wrs : List SendWr) (pkt : Packet) (pkts : List Packet)
      → pkt.opaque ≡ 0
      → Owned pds mrs wrs pkts
      → Owned pds mrs wrs (pkt ∷ pkts)
  gone :
      (pds : Pds) (mrs : Mrs) (w : SendWr) (wrs : List SendWr) (pkts : List Packet)
      → is_gone w ≡ true
      → Owned pds mrs wrs pkts
      → Owned pds mrs (w ∷ wrs) pkts
  whole :
      (pds pds' : Pds) (mrs mrs' : Mrs) (w : SendWr) (wrs : List SendWr) (pkt : Packet)
      (pkts : List Packet)
      → is_gone w ≡ false
      → pkt.opaque ≡ w.address
      → w.address ≢ 0
      → IsReported w
      → released pds mrs w ≡ some (pds', mrs')
      → Owned pds' mrs' wrs pkts
      → Owned pds mrs (w ∷ wrs) (pkt ∷ pkts)

abbrev pub OwnedBy : Requester → List Packet → Type 0
OwnedBy s pkts = Owned s.pds s.mrs s.wrs pkts

-- The identifier that the end of a work request reports, and those of a list, in its order.
abbrev pub due_one : Bool → SendWr → List ℕ
due_one all w =
    if is_gone w then [] else if all || has w.send_flags signaled then w.wr_id ∷ [] else []

abbrev pub due : Bool → List SendWr → List ℕ
due all [] = []
due all (w ∷ ws) = due_one all w ++ due all ws

-- The identifiers that have been reported, and those that are to be.
abbrev pub ids_of : Requester → List ℕ
ids_of s = map (λ wc. wc.wr_id) s.completed

abbrev pub owed : Requester → List ℕ
owed s = ids_of s ++ due s.sq_sig_all s.wrs

pub complete_wrs-Owned :
    (pds : Pds) (mrs : Mrs) (wrs : List SendWr) (pkts : List Packet)
    → Owned pds mrs wrs pkts
    → Owned pds mrs (complete_wrs wrs) pkts
unfolding complete_wrs
complete_wrs-Owned pds mrs wrs pkts (finished _ _) = finished pds mrs
complete_wrs-Owned pds mrs wrs pkts (part _ _ _ pkt pkts' z o) =
    part pds mrs (complete_wrs wrs) pkt pkts' z (complete_wrs-Owned pds mrs wrs pkts' o)
complete_wrs-Owned pds mrs wrs pkts (gone _ _ w ws _ g o) =
    rw g (complete_wrs-Owned pds mrs ws pkts o)
complete_wrs-Owned pds mrs wrs pkts (whole _ pds' _ mrs' w ws pkt pkts' stays e n r f o) =
    rw stays (whole pds pds' mrs mrs' w ws pkt pkts' stays e n r f o)

pub due_one-gone : (all : Bool) (w : SendWr) → is_gone w ≡ true → due_one all w ≡ []
due_one-gone all w g = when_true (is_gone w) [] _ g

pub stays_lem : (w : SendWr) (ws : List SendWr) → is_gone w ≡ false → complete_wrs (w ∷ ws) ≡ w ∷ ws
unfolding complete_wrs
stays_lem w ws stays = when_false (is_gone w) _ _ stays

pub due-complete_wrs : (all : Bool) (wrs : List SendWr) → due all (complete_wrs wrs) ≡ due all wrs
unfolding complete_wrs
due-complete_wrs all [] = refl
due-complete_wrs all (w ∷ ws) = elim (Bool-cases (is_gone w)) [
  | inl g ↦
      ap (due all) (when_true (is_gone w) _ _ g)
      ∙ due-complete_wrs all ws
      ∙ ap (λ d. d ++ due all ws) (sym (due_one-gone all w g))
  | inr stays ↦ ap (due all) (stays_lem w ws stays)
]

-- Nothing is left to wait for once no packet is.
pub nothing_left :
    (pds : Pds) (mrs : Mrs) (wrs : List SendWr) (pkts : List Packet)
    → pkts ≡ []
    → Owned pds mrs wrs pkts
    → (all : Bool) → (complete_wrs wrs ≡ []) × (due all wrs ≡ [])
unfolding complete_wrs
nothing_left pds mrs wrs pkts e (finished _ _) all = (refl, refl)
nothing_left pds mrs wrs pkts e (part _ _ _ pkt pkts' z o) all = cc
nothing_left pds mrs wrs pkts e (gone _ _ w ws _ g o) all =
    let rest = nothing_left pds mrs ws pkts e o all in
    (
      when_true (is_gone w) _ _ g ∙ rest.0,
      ap (λ d. d ++ due all ws) (due_one-gone all w g) ∙ rest.1,
    )
nothing_left pds mrs wrs pkts e (whole _ pds' _ mrs' w ws pkt pkts' stays a n r f o) all = cc

-- What the end of a packet's work request leaves, with the packets behind it.
pub record Ended (pkts : List Packet) (s s' : Requester) : Type 0 where
  pub owned : OwnedBy s' pkts
  pub owed_same : owed s' ≡ owed s
  pub sig_same : s'.sq_sig_all ≡ s.sq_sig_all

abbrev pub Ends : List Packet → Requester → Option Requester → Type 0
Ends pkts s r = (s' : Requester) × (r ≡ some s') × Ended pkts s s'

-- `s` with the completion of `w`.
abbrev reported : (s : Requester) (w : SendWr) → IsReported w → Requester
reported s w r = record s {
  completed =
      s.completed
      ++ record {
        wr_id = w.wr_id;
        status = success;
        opcode = r.opcode;
        byte_len = r.len;
        local_qpn = s.handle;
        remote_qpn = s.dest_qp_num;
        imm_data = 0;
        wc_flags = r.flags;
      }
        ∷ [];
}

-- What `report` leaves: one more identifier where a completion is asked for.
pub record Reported (w : SendWr) (s s' : Requester) : Type 0 where
  pub ids : ids_of s' ≡ ids_of s ++ due_one s.sq_sig_all w
  pub pds : s'.pds ≡ s.pds
  pub mrs : s'.mrs ≡ s.mrs
  pub wrs : s'.wrs ≡ s.wrs
  pub sig : s'.sq_sig_all ≡ s.sq_sig_all

pub report_lem :
    (s : Requester) (w : SendWr)
    → is_gone w ≡ false
    → IsReported w
    → (s' : Requester) × (report s w ≡ some s') × Reported w s s'
unfolding report
report_lem s w stays r = elim (Bool-cases (s.sq_sig_all || has w.send_flags signaled)) [
  | inr silent ↦ (
    s,
    when_false (s.sq_sig_all || has w.send_flags signaled) _ _ silent,
    record {
      ids =
          sym (append-nil (ids_of s))
          ∙ ap (λ d. ids_of s ++ d)
              (sym (one ∙ when_false (s.sq_sig_all || has w.send_flags signaled) _ _ silent));
      pds = refl;
      mrs = refl;
      wrs = refl;
      sig = refl;
    },
  )
  | inl asked ↦ (
    reported s w r,
    rw (asked, r.has_len, r.has_opcode) refl,
    record {
      ids =
          map-append (λ wc. wc.wr_id) s.completed _
          ∙ ap (λ d. ids_of s ++ d)
              (sym (one ∙ when_true (s.sq_sig_all || has w.send_flags signaled) _ _ asked));
      pds = refl;
      mrs = refl;
      wrs = refl;
      sig = refl;
    },
  )
]
  where
    one :
        due_one s.sq_sig_all w
        ≡ (if s.sq_sig_all || has w.send_flags signaled then w.wr_id ∷ [] else [])
    one = when_false (is_gone w) [] _ stays
