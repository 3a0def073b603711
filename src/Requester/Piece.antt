-- ===== src/Requester/Piece.antt =====
-- One packet of a message of several.
use libroce.Base.{
  ℕ, zero, suc, ◌+◌, ◌^◌, ◌≤◌, ◌<◌, ◌≡◌, refl, sym, ap, ◌∙◌, subst, inl, inr, List, [], ◌∷◌, Option,
  none, some, ℤ, Bool, true, false, ◌==◌, ==_iff, Bool-cases, Option-cases, length, take, drop, map,
  arith,
}
use libroce.Word.{u16}
use libroce.Iov.{Iov}
use libroce.Iov.Span.{span, length-span}
use libroce.Ib.Bth.{Bth, IsBth}
use libroce.Ib.Bth.Layout.{layout}
use libroce.Netpkt.SetBth.{asked, layout-set_bth}
use libroce.Qp.{qp_type_to_ib}
use libroce.Sge.{Sge, Picked, sge_advance, sge_pages}
use libroce.Sge.Advance.{iov_of, iovs_from, Fits, NoWrap, Tiles, sge_advance-Tiles}
use libroce.Mr.Map.{map_sge}
use libroce.Requester.{Packet, Ctx, Requester, netpkt_alloc, to_u32}
use libroce.Requester.Build.{Ending, cut, map_payload}
use libroce.Wr.{SendWr}

-- The addresses of the message from an element and an offset on.
abbrev pub rest : SendWr → ℕ → ℕ → List ℕ
rest w idx off = span (iovs_from off (drop idx w.sges))

-- A place in the elements where a packet may start.
abbrev pub IsPlace : SendWr → ℕ → ℕ → Type 0
IsPlace w idx off = Fits off (drop idx w.sges) × NoWrap (drop idx w.sges)

-- The payload entries of the packet `pkt` are those that `roce_mr_map_sge` makes of the elements
-- `gs`, as many as the elements have pages, and the packet has room for them and eight more.
abbrev pub IsMapped : Ctx → Requester → Packet → List Sge → Type 0
IsMapped c s pkt gs =
    (ret : ℤ) × (moved : Bool) × (map_sge c.dma_map s.mrs s.pd s.qp_type gs true 0 false
      ≡ some (ret, pkt.payload, moved))
    × (sge_pages gs c.page_size ≡ some (to_u32 ret))
    × (pkt.num_iov ≡ u16 (to_u32 ret) + 8)

-- The bytes of elements, as the list of their addresses.
abbrev pub carried : List Sge → List ℕ
carried gs = span (map iov_of gs)

-- The packet `pkt` has the header and the end asked for, its payload is that of the elements `gs`,
-- which stand for the bytes asked for, and the next starts behind them.
pub record IsPiece (c : Ctx) (s : Requester) (w : SendWr) (ib opaque padcnt : ℕ) (e : Ending)
    (se ack : Bool) (psn bytes idx off : ℕ) (pkt : Packet) (idx' off' : ℕ) : Type 0 where
  pub header : layout pkt.bth ≡ asked ib e.opcode se padcnt s.dest_qp_num ack psn
  pub ended : pkt.opaque ≡ opaque
  pub extended : pkt.ext ≡ e.ext
  pub gs : List Sge
  pub mapped : IsMapped c s pkt gs
  pub carries : carried gs ≡ take bytes (rest w idx off)
  pub place : IsPlace w idx' off'
  pub next : rest w idx' off' ≡ drop bytes (rest w idx off)

drop-nil : {A : Type 0} (n : ℕ) → drop {A = A} n [] ≡ []
drop-nil zero = refl
drop-nil (suc n) = refl

drop-drop : {A : Type 0} (a b : ℕ) (xs : List A) → drop a (drop b xs) ≡ drop (b + a) xs
drop-drop a zero xs = let e : a ≡ 0 + a = omega arith in ap (λ n. drop n xs) e
drop-drop zero (suc b) xs = let e : suc b ≡ suc b + 0 = omega arith in ap (λ n. drop n xs) e
drop-drop (suc a) (suc b) [] = sym (drop-nil (suc b + suc a))
drop-drop (suc a) (suc b) (x ∷ xs) =
    let e : suc (b + suc a) ≡ suc b + suc a = omega arith in
    drop-drop (suc a) b xs ∙ ap (λ n. drop n (x ∷ xs)) e

length-drop_le : {A : Type 0} (n : ℕ) (xs : List A) → length (drop n xs) ≤ length xs
length-drop_le zero xs = omega arith
length-drop_le (suc n) [] = omega arith
length-drop_le (suc n) (x ∷ xs) = omega (arith, length-drop_le n xs)

-- The elements are picked from a place with enough bytes behind it.
advance-Tiles :
    (w : SendWr) (bytes idx off : ℕ)
    → IsPlace w idx off
    → 0 < bytes
    → bytes < 2 ^ 32
    → bytes ≤ length (rest w idx off)
    → length w.sges < 2 ^ 32
    → (p : Picked) × (sge_advance w.sges bytes idx off ≡ some p)
      × Tiles (drop idx w.sges) bytes off 0 p
advance-Tiles w bytes idx off (f, straight) lo small inside short = go (drop idx w.sges) refl
  where
    go :
        (gs : List Sge)
        → drop idx w.sges ≡ gs
        → (p : Picked) × (sge_advance w.sges bytes idx off ≡ some p)
          × Tiles (drop idx w.sges) bytes off 0 p
    go [] e =
        let n : length (rest w idx off) ≡ 0 = ap (λ gs. length (span (iovs_from off gs))) e in
        absurd (omega arith)
    go (g ∷ gs) e =
        let r =
          sge_advance-Tiles w.sges g gs bytes idx off e (subst (Fits off) e f)
            (subst NoWrap e straight) small
            (omega (
              arith,
              ap (λ gs. length (span (iovs_from off gs))) e,
              length-span (iovs_from off (g ∷ gs)),
            ))
            (omega (arith, ap (length {A = Sge}) e, length-drop_le idx w.sges)) in
        (r.0, r.1, subst (λ gs. Tiles gs bytes off 0 r.0) (sym e) r.2)

abbrev blank : Bth
blank = record { opcode = 0; flags = 0; pkey = 0; u32_1 = 0; u32_2 = 0 }

blank-IsBth : IsBth blank
blank-IsBth = record {
  opcode_fits = omega arith;
  flags_fit = omega arith;
  pkey_fits = omega arith;
  u32_1_fits = omega arith;
  u32_2_fits = omega arith;
}

abbrev Cut : Type 0
Cut = Option (Packet × ℕ × ℕ)

abbrev filled : Ctx → SendWr → ℕ → ℕ → ℕ → Bth → Ending → List (ℕ × List Iov) → Packet
filled c w opaque pages padcnt bth e written = record {
  opaque = opaque;
  num_iov = u16 pages + 8;
  vnet_len = c.vnet_hdr;
  padcnt = padcnt;
  bth = bth;
  ext = e.ext;
  eth_len = e.eth_len;
  payload = written;
}

some_inj : {A : Type 0} {a b : A} → ◌≡◌ {A = Option A} (some a) (some b) → a ≡ b
some_inj e = cc

none-some : {A : Type 0} {a : A} → ◌≡◌ {A = Option A} none (some a) → ⊥
none-some e = cc

module _ (c : Ctx) (s : Requester) (w : SendWr) (ib : ℕ) (known : qp_type_to_ib s.qp_type ≡ some ib)
    (short : length w.sges < 2 ^ 32) where
  map_payload-IsMapped :
      (pkt : Packet) (gs : List Sge) (pages : ℕ)
      → map_payload c s w gs pages ≡ some pkt.payload
      → sge_pages gs c.page_size ≡ some pages
      → pkt.num_iov ≡ u16 pages + 8
      → IsMapped c s pkt gs
  unfolding map_payload
  map_payload-IsMapped pkt gs pages e np room =
      elim (Option-cases (map_sge c.dma_map s.mrs s.pd s.qp_type gs true 0 false)) [
        | inl n ↦ absurd (none-some (sym (rw (n, map_payload) refl) ∙ e))
        | inr ((ret, written, moved), found) ↦ elim (Bool-cases (pages == to_u32 ret)) [
          | inl same ↦ (
            ret,
            moved,
            found
                ∙ ap (λ l. some (ret, l, moved))
                    (some_inj (sym (rw (found, same, map_payload) refl) ∙ e)),
            np ∙ ap some ((==_iff pages (to_u32 ret)).0 same),
            room ∙ ap (λ n. u16 n + 8) ((==_iff pages (to_u32 ret)).0 same),
          )
          | inr other ↦ absurd (none-some (sym (rw (found, other, map_payload) refl) ∙ e))
        ]
      ]

  pub cut-IsPiece :
      (k opaque padcnt : ℕ) (e : Ending) (se ack : Bool) (psn bytes idx off : ℕ) (pkt : Packet)
      (idx' off' : ℕ)
      → e.opcode < 2 ^ 5
      → IsPlace w idx off
      → 0 < bytes
      → bytes < 2 ^ 32
      → bytes ≤ length (rest w idx off)
      → cut c s w k opaque padcnt e se ack psn bytes idx off ≡ some (pkt, idx', off')
      → IsPiece c s w ib opaque padcnt e se ack psn bytes idx off pkt idx' off'
  unfolding cut netpkt_alloc
  cut-IsPiece k opaque padcnt e se ack psn bytes idx off pkt idx' off' ho place lo small inside eq =
      let (p, picked, tiles) = advance-Tiles w bytes idx off place lo small inside short in
      let (h, set, valid, header) =
        layout-set_bth blank s.qp_type ib e.opcode se padcnt s.dest_qp_num ack psn blank-IsBth ho
          known in
      elim (Option-cases (sge_pages p.dst c.page_size)) [
        | inl np ↦ clash (sym (rw (picked, np, cut) refl) ∙ eq)
        | inr (pages, np) ↦ elim (Bool-cases (c.memory k)) [
          | inr nm ↦ clash (sym (rw (picked, np, nm, cut, netpkt_alloc) refl) ∙ eq)
          | inl nm ↦ elim (Option-cases (map_payload c s w p.dst pages)) [
            | inl nw ↦ clash (sym (rw (picked, np, nm, set, nw, cut, netpkt_alloc) refl) ∙ eq)
            | inr (written, nw) ↦
                let same : ◌≡◌ {A = Cut}
                    (some (filled c w opaque pages padcnt h e written, idx + p.passed, p.off))
                    (some (pkt, idx', off')) =
                  sym (rw (picked, np, nm, set, nw, cut, netpkt_alloc) refl) ∙ eq in
                subst (λ t. IsPiece c s w ib opaque padcnt e se ack psn bytes idx off t.0 t.1 t.2)
                  (some_inj same)
                  (record {
                    header = header;
                    ended = refl;
                    extended = refl;
                    carries = tiles.picked;
                    place = (
                      subst (Fits p.off) (drop-drop p.passed idx w.sges) tiles.fits,
                      subst NoWrap (drop-drop p.passed idx w.sges) tiles.straight,
                    );
                    gs = p.dst;
                    mapped =
                        map_payload-IsMapped (filled c w opaque pages padcnt h e written) p.dst
                          pages nw np refl;
                    next =
                        ap (λ gs. span (iovs_from p.off gs)) (sym (drop-drop p.passed idx w.sges))
                        ∙ tiles.next;
                  })
          ]
        ]
      ]
    where
      clash :
          ◌≡◌ {A = Cut} none (some (pkt, idx', off'))
          → IsPiece c s w ib opaque padcnt e se ack psn bytes idx off pkt idx' off'
      clash r = cc
