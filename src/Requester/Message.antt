-- ===== src/Requester/Message.antt =====
-- A message of several packets: their headers, their ends, and the bytes that they carry.
use Prim.{tt}
use libroce.Base.{
  ℕ, zero, suc, ◌+◌, ◌*◌, ◌^◌, ◌≤◌, ◌<◌, ◌≡◌, refl, ap, ap₂, ◌∙◌, inl, inr, List, [], ◌∷◌, ◌++◌,
  some, false, Bool-cases, Option-cases, length, replicate, map, arith, append_assoc,
  take-append-drop, length-take, length-drop, ltb, ltb→lt, ltb→le,
}
use libroce.Word.{sub32}
use libroce.Ib.Bth.Layout.{Layout, layout}
use libroce.Netpkt.SetBth.{asked}
use libroce.Psn.{psn_inc}
use libroce.Psn.Order.{after, psn_inc_lem}
use libroce.Qp.{qp_type_to_ib}
use libroce.Sge.{Sge}
use libroce.Requester.{no_ext, Packet, Ctx, Requester}
use libroce.Requester.Build.{cut, plain, asks_ack}
use libroce.Requester.Multi.{Middles, broken, looping, made, in_front, middles}
use libroce.Requester.Piece.{rest, IsPlace, carried, IsMapped, IsPiece, cut-IsPiece}
use libroce.Wr.{SendWr}

-- The payloads of packets are those of the elements of `parts`, one part for each.
abbrev pub AreMapped : Ctx → Requester → List Packet → List (List Sge) → Type 0
AreMapped c s [] [] = Unit
AreMapped c s (pkt ∷ pkts) (gs ∷ parts) = IsMapped c s pkt gs × AreMapped c s pkts parts
AreMapped c s pkts parts = ⊥

-- The bytes of all parts.
abbrev pub all_carried : List (List Sge) → List ℕ
all_carried [] = []
all_carried (gs ∷ parts) = carried gs ++ all_carried parts

-- The header of a packet.
abbrev pub header : Packet → Layout
header pkt = layout pkt.bth

-- The headers of `n` packets in the middle of a message: sequence numbers from `psn` on, each one
-- that is divisible by 8 with a request for an acknowledgement.
abbrev pub middle_headers : ℕ → ℕ → ℕ → ℕ → ℕ → List Layout
middle_headers ib opcode dest zero psn = []
middle_headers ib opcode dest (suc n) psn =
    asked ib opcode false 0 dest (asks_ack psn) psn ∷ middle_headers ib opcode dest n (after psn 1)

-- The packets in the middle carry `mtu` bytes each from a place on, and end where the loop stands.
pub record AreMiddles (c : Ctx) (s : Requester) (w : SendWr) (ib mtu opcode psn payload idx off : ℕ)
    (pkts : List Packet) (psn' payload' idx' off' : ℕ) : Type 0 where
  pub headers : map header pkts ≡ middle_headers ib opcode s.dest_qp_num (length pkts) psn
  pub next_psn : psn' ≡ after psn (length pkts)
  pub parts : List (List Sge)
  pub mapped : AreMapped c s pkts parts
  pub sizes : map (λ gs. length (carried gs)) parts ≡ replicate (length pkts) mtu
  pub silent : map (λ pkt. pkt.opaque) pkts ≡ replicate (length pkts) 0
  pub bare : map (λ pkt. pkt.ext) pkts ≡ replicate (length pkts) no_ext
  pub counted : length pkts * mtu + payload' ≡ payload
  pub some_left : 0 < payload'
  pub at_most : payload' ≤ mtu
  pub place : IsPlace w idx' off'
  pub full : length (rest w idx' off') ≡ payload'
  pub bytes : all_carried parts ++ rest w idx' off' ≡ rest w idx off

module _ (c : Ctx) (s : Requester) (w : SendWr) (ib mtu : ℕ)
    (known : qp_type_to_ib s.qp_type ≡ some ib) (short : length w.sges < 2 ^ 32)
    (positive : 0 < mtu) (fits : mtu < 2 ^ 32) where
  stop :
      (opcode psn payload idx off : ℕ)
      → psn < 2 ^ 24
      → IsPlace w idx off
      → 0 < payload
      → payload ≤ mtu
      → length (rest w idx off) ≡ payload
      → AreMiddles c s w ib mtu opcode psn payload idx off [] psn payload idx off
  stop opcode psn payload idx off hp place lo hi full = record {
    headers = refl;
    next_psn = omega arith;
    parts = [];
    mapped = tt;
    sizes = refl;
    silent = refl;
    bare = refl;
    counted = omega arith;
    some_left = lo;
    at_most = hi;
    place = place;
    full = full;
    bytes = refl;
  }

  one_more :
      (opcode psn payload idx off : ℕ) (pkt : Packet) (idx₁ off₁ : ℕ) (pkts : List Packet)
      (psn' payload' idx' off' : ℕ)
      → mtu < payload
      → payload < 2 ^ 32
      → length (rest w idx off) ≡ payload
      → IsPiece c s w ib 0 0 (plain opcode) false (asks_ack psn) psn mtu idx off pkt idx₁ off₁
      → AreMiddles c s w ib mtu opcode
          (psn_inc psn)
          (sub32 payload mtu)
          idx₁
          off₁
          pkts
          psn'
          payload'
          idx'
          off'
      → AreMiddles c s w ib mtu opcode psn payload idx off (pkt ∷ pkts) psn' payload' idx' off'
  one_more opcode psn payload idx off pkt idx₁ off₁ pkts psn' payload' idx' off' hm hp full piece
        t =
      record {
        headers = ap₂ ◌∷◌ piece.header (
            t.headers
            ∙ ap (middle_headers ib opcode s.dest_qp_num (length pkts)) (psn_inc_lem psn));
        next_psn = omega (arith, t.next_psn, psn_inc_lem psn);
        parts = piece.gs ∷ t.parts;
        mapped = (piece.mapped, t.mapped);
        sizes = ap₂ ◌∷◌ size t.sizes;
        silent = ap₂ ◌∷◌ piece.ended t.silent;
        bare = ap₂ ◌∷◌ piece.extended t.bare;
        counted = count;
        some_left = t.some_left;
        at_most = t.at_most;
        place = t.place;
        full = t.full;
        bytes =
            append_assoc (carried piece.gs) (all_carried t.parts) (rest w idx' off')
            ∙ ap₂ ◌++◌ piece.carries (t.bytes ∙ piece.next)
            ∙ take-append-drop mtu (rest w idx off);
      }
    where
      size : length (carried piece.gs) ≡ mtu
      size = ap (length {A = ℕ}) piece.carries ∙ length-take mtu (rest w idx off) ∙ omega arith

      suc_mul : suc (length pkts) * mtu ≡ mtu + length pkts * mtu
      suc_mul = grind arith

      count : suc (length pkts) * mtu + payload' ≡ payload
      count = omega (arith, suc_mul, t.counted)

  -- What is claimed of the loop's result: it has fuel enough, and where it finds memory for the
  -- packets and maps their payloads, it makes the right ones.
  abbrev pub Right : ℕ → ℕ → ℕ → ℕ → ℕ → Middles → Type 0
  Right opcode psn payload idx off broken = Unit
  Right opcode psn payload idx off looping = ⊥
  Right opcode psn payload idx off (made pkts psn' payload' idx' off') =
      AreMiddles c s w ib mtu opcode psn payload idx off pkts psn' payload' idx' off'

  in_front-Right :
      (opcode psn payload idx off : ℕ) (pkt : Packet) (idx₁ off₁ : ℕ) (m : Middles)
      → mtu < payload
      → payload < 2 ^ 32
      → length (rest w idx off) ≡ payload
      → IsPiece c s w ib 0 0 (plain opcode) false (asks_ack psn) psn mtu idx off pkt idx₁ off₁
      → Right opcode (psn_inc psn) (sub32 payload mtu) idx₁ off₁ m
      → Right opcode psn payload idx off (in_front pkt m)
  in_front-Right opcode psn payload idx off pkt idx₁ off₁ broken hm hp full piece t = tt
  in_front-Right opcode psn payload idx off pkt idx₁ off₁ looping hm hp full piece t = t
  in_front-Right opcode psn payload idx off pkt idx₁ off₁ (made pkts psn' payload' idx' off') hm hp
        full piece t =
      one_more opcode psn payload idx off pkt idx₁ off₁ pkts psn' payload' idx' off' hm hp full
        piece t

  pub middles-Right :
      (opcode fuel k psn payload idx off : ℕ)
      → opcode < 2 ^ 5
      → psn < 2 ^ 24
      → IsPlace w idx off
      → 0 < payload
      → payload < 2 ^ 32
      → payload ≤ fuel
      → length (rest w idx off) ≡ payload
      → Right opcode psn payload idx off (middles c s w mtu opcode fuel k psn payload idx off)
  unfolding middles
  middles-Right opcode zero k psn payload idx off ho hq place lo hp enough full =
      absurd (omega arith)
  middles-Right opcode (suc fuel) k psn payload idx off ho hq place lo hp enough full =
      elim (Bool-cases (ltb mtu payload)) [
        | inr last ↦ rw last (
            stop opcode psn payload idx off hq place lo (omega (arith, ltb→le mtu payload last))
              full)
        | inl more ↦
            elim (Option-cases
              (cut c s w k 0 0 (plain opcode) false (asks_ack psn) psn mtu idx off)) [
                | inl n ↦ rw (more, n) tt
                | inr ((pkt, idx₁, off₁), found) ↦
                    let hm : mtu < payload = ltb→lt mtu payload more in
                    let piece =
                      cut-IsPiece c s w ib known short k 0 0 (plain opcode) false (asks_ack psn) psn
                        mtu idx off pkt idx₁ off₁ ho place positive fits (omega arith) found in
                    rw (more, found)
                      (in_front-Right opcode psn payload idx off pkt idx₁ off₁ _ hm hp full piece (
                        middles-Right opcode fuel (suc k) (psn_inc psn) (sub32 payload mtu) idx₁
                          off₁ ho (omega (arith, psn_inc_lem psn)) piece.place (omega arith)
                          (omega arith) (omega arith)
                          (ap (length {A = ℕ}) piece.next
                            ∙ length-drop mtu (rest w idx off)
                            ∙ omega arith)))
              ]
      ]
