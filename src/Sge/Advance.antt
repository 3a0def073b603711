-- ===== src/Sge/Advance.antt =====
-- `roce_sge_advance` cuts a buffer of scatter-gather elements into the pieces of packets.
use native.Mathlib.Decide.{dec_lt, ℕ_discrete}
use libroce.Base.{
  ℕ, zero, suc, ◌+◌, ◌-◌, ◌^◌, ◌≤◌, ◌<◌, ◌≡◌, refl, sym, ap, ap₂, ◌∙◌, List, [], ◌∷◌, ◌++◌, some,
  ltb, ◌==◌, length, take, drop, map, append-nil, arith, true, false,
}
use libroce.Word.{u32, u64, sub32}
use libroce.Iov.{Iov, addresses}
use libroce.Iov.Span.{span, total, take_within, take_past, drop_within, drop_past, drop_entry}
use libroce.Sge.{Sge, Picked, advance_loop, sge_advance}

-- An element as an entry of a scatter list, whole and from an offset on.
abbrev pub iov_of : Sge → Iov
iov_of s = record { base = s.addr; len = s.length }

abbrev pub behind : Sge → ℕ → Iov
behind s off = record { base = s.addr + off; len = s.length - off }

abbrev pub iovs_from : ℕ → List Sge → List Iov
iovs_from off [] = []
iovs_from off (s ∷ ss) = behind s off ∷ map iov_of ss

-- Elements whose lengths and offset are numbers of 32 digits.
abbrev pub Fits : ℕ → List Sge → Type 0
Fits off [] = Unit
Fits off (s ∷ ss) = (off ≤ s.length) × (s.length < 2 ^ 32) × Fits 0 ss

-- Elements none of which goes round at 2 ^ 64.
abbrev pub NoWrap : List Sge → Type 0
NoWrap [] = Unit
NoWrap (s ∷ ss) = (s.addr + s.length < 2 ^ 64) × NoWrap ss

-- What the loop has done, of the bytes `bytes` from the offset `off` on.
pub record Tiles (ss : List Sge) (bytes off dst_idx : ℕ) (p : Picked) : Type 0 where
  pub count : p.count ≡ dst_idx + length p.dst
  pub picked : span (map iov_of p.dst) ≡ take bytes (span (iovs_from off ss))
  pub next : span (iovs_from p.off (drop p.passed ss)) ≡ drop bytes (span (iovs_from off ss))
  pub fits : Fits p.off (drop p.passed ss)
  pub straight : NoWrap (drop p.passed ss)

iovs_from_zero : (ss : List Sge) → span (iovs_from 0 ss) ≡ span (map iov_of ss)
iovs_from_zero [] = refl
iovs_from_zero (s ∷ ss) =
    ap₂ (λ b l. addresses b l ++ span (map iov_of ss)) (omega arith) (omega arith)

module _ (s : Sge) (ss : List Sge) (bytes off dst_idx : ℕ) (h : off ≤ s.length)
    (fits : s.length < 2 ^ 32) (straight : s.addr + s.length < 2 ^ 64) (small : bytes < 2 ^ 32)
    (room : dst_idx + 1 < 2 ^ 32) where
  remained_eq : sub32 s.length off ≡ s.length - off
  remained_eq = omega arith

  addr_eq : u64 (s.addr + off) ≡ s.addr + off
  addr_eq = omega arith

  count_eq : u32 (dst_idx + 1) ≡ dst_idx + 1
  count_eq = omega arith

  within :
      bytes < s.length - off
      → advance_loop (s ∷ ss) bytes off dst_idx ≡ record {
        count = dst_idx + 1;
        dst = record { addr = s.addr + off; length = bytes; lkey = s.lkey } ∷ [];
        passed = 0;
        off = off + bytes;
      }
  unfolding advance_loop
  within b = rw (remained_eq, test, count_eq, off_eq, addr_eq) refl
    where
      test : ltb bytes (s.length - off) ≡ true
      test = ground arith

      off_eq : u32 (off + bytes) ≡ off + bytes
      off_eq = omega arith

  exact :
      bytes ≡ s.length - off
      → advance_loop (s ∷ ss) bytes off dst_idx ≡ record {
        count = dst_idx + 1;
        dst = record { addr = s.addr + off; length = s.length - off; lkey = s.lkey } ∷ [];
        passed = 1;
        off = 0;
      }
  unfolding advance_loop
  exact b = rw (remained_eq, test, test', count_eq, addr_eq) refl
    where
      test : ltb bytes (s.length - off) ≡ false
      test = ground arith

      test' : ((s.length - off) == bytes) ≡ true
      test' = ground arith

  past :
      s.length - off < bytes
      → let rest = advance_loop ss (bytes - (s.length - off)) 0 (dst_idx + 1) in
        advance_loop (s ∷ ss) bytes off dst_idx ≡ record rest {
          dst = record { addr = s.addr + off; length = s.length - off; lkey = s.lkey } ∷ rest.dst;
          passed = suc rest.passed;
        }
  unfolding advance_loop
  past b = rw (remained_eq, test, test', count_eq, left_eq, addr_eq) refl
    where
      test : ltb bytes (s.length - off) ≡ false
      test = ground arith

      test' : ((s.length - off) == bytes) ≡ false
      test' = ground arith

      left_eq : sub32 bytes (s.length - off) ≡ bytes - (s.length - off)
      left_eq = omega arith

length-map : (ss : List Sge) → total (map iov_of ss) ≡ total (iovs_from 0 ss)
length-map [] = refl
length-map (s ∷ ss) = omega arith

advance_loop-Tiles :
    (ss : List Sge) (bytes off dst_idx : ℕ)
    → Fits off ss
    → NoWrap ss
    → 0 < bytes
    → bytes < 2 ^ 32
    → bytes ≤ total (iovs_from off ss)
    → dst_idx + length ss < 2 ^ 32
    → Tiles ss bytes off dst_idx (advance_loop ss bytes off dst_idx)
advance_loop-Tiles [] bytes off dst_idx f straight lo small inside room = absurd (omega arith)
advance_loop-Tiles (s ∷ ss) bytes off dst_idx f straight lo small inside room =
    elim (dec_lt bytes (s.length - off)) [
      | yes b ↦
          rw (within s ss bytes off dst_idx f.0 f.1 straight.0 small (omega arith) b) (record {
            count = omega arith;
            picked =
                append-nil (addresses (s.addr + off) bytes)
                ∙ sym (take_within (behind s off) (map iov_of ss) bytes (omega arith));
            next =
                ap₂ (λ a l. addresses a l ++ span (map iov_of ss)) (omega arith) (omega arith)
                ∙ sym (drop_within (behind s off) (map iov_of ss) bytes (omega arith));
            fits = (omega (arith, f.0), f.1, f.2);
            straight = straight;
          })
      | no nb ↦ elim (ℕ_discrete bytes (s.length - off)) [
        | yes e ↦
            rw (exact s ss bytes off dst_idx f.0 f.1 straight.0 small (omega arith) e) (record {
              count = omega arith;
              picked =
                  append-nil (addresses (s.addr + off) (s.length - off))
                  ∙ ap (addresses (s.addr + off)) (sym e)
                  ∙ sym (take_within (behind s off) (map iov_of ss) bytes (omega arith));
              next =
                  iovs_from_zero ss ∙ sym (drop_entry (behind s off) (map iov_of ss) bytes (sym e));
              fits = f.2;
              straight = straight.1;
            })
        | no ne ↦
            let n : ℕ = bytes - (s.length - off) in
            let ih =
              advance_loop-Tiles ss n 0 (dst_idx + 1) f.2 straight.1 (omega arith) (omega arith)
                (omega (arith, length-map ss)) (omega arith) in
            rw (past s ss bytes off dst_idx f.0 f.1 straight.0 small (omega arith) (omega arith))
              (record {
                count = omega (arith, ih.count);
                picked =
                    ap (λ t. addresses (s.addr + off) (s.length - off) ++ t)
                      (ih.picked ∙ ap (take n) (iovs_from_zero ss))
                    ∙ sym (take_past (behind s off) (map iov_of ss) bytes (omega arith));
                next =
                    ih.next
                    ∙ ap (drop n) (iovs_from_zero ss)
                    ∙ sym (drop_past (behind s off) (map iov_of ss) bytes (omega arith));
                fits = ih.fits;
                straight = ih.straight;
              })
      ]
    ]

pub sge_advance-Tiles :
    (sges : List Sge) (s : Sge) (ss : List Sge) (bytes sge_idx off : ℕ)
    → drop sge_idx sges ≡ s ∷ ss
    → Fits off (s ∷ ss)
    → NoWrap (s ∷ ss)
    → bytes < 2 ^ 32
    → bytes ≤ total (iovs_from off (s ∷ ss))
    → length (s ∷ ss) < 2 ^ 32
    → (p : Picked) × (sge_advance sges bytes sge_idx off ≡ some p) × Tiles (s ∷ ss) bytes off 0 p
unfolding sge_advance
sge_advance-Tiles sges s ss zero sge_idx off e f straight small inside room = (
  record { count = 0; dst = []; passed = 0; off = off },
  rw (e, in_range, sge_advance) refl,
  record { count = refl; picked = refl; next = refl; fits = f; straight = straight },
)
  where
    in_range : ltb s.length off ≡ false
    in_range = ground (arith, f.0)
sge_advance-Tiles sges s ss (suc n) sge_idx off e f straight small inside room = (
  advance_loop (s ∷ ss) (suc n) off 0,
  rw (e, in_range, positive, sge_advance) refl,
  advance_loop-Tiles (s ∷ ss) (suc n) off 0 f straight (omega arith) small inside (omega arith),
)
  where
    in_range : ltb s.length off ≡ false
    in_range = ground (arith, f.0)

    positive : (suc n == 0) ≡ false
    positive = ground arith
