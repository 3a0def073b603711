-- ===== src/Sge.antt =====
-- include/private/sge-helper.h: the scatter-gather elements of a work request. `none` stands for a
-- failed assertion.
pub mod Advance
pub mod Length
use libroce.Base.{
  ℕ, zero, suc, ◌+◌, ◌-◌, ◌*◌, ◌/◌, ◌%◌, ◌^◌, bit_and, Bool, false, List, [], ◌∷◌, Option, none,
  some, ltb, leb, ◌==◌, not, if◌then◌else◌, drop,
}
use libroce.Word.{u32, u64, sub32, sub64, not32}

-- `roce_power_of_2` of include/private/util.h.
unfoldable pub power_of_2 : ℕ → Bool
power_of_2 val = if val == 0 then false else bit_and val (val - 1) == 0

-- `roce_sge`.
pub record Sge : Type 0 where
  pub addr : ℕ
  pub length : ℕ
  pub lkey : ℕ

-- `roce_sge_len`: the loop over the entries behind the first, in 64 bits.
unfoldable pub len_behind : ℕ → List Sge → ℕ
len_behind total [] = total
len_behind total (s ∷ ss) = len_behind ((total + s.length) % 2 ^ 64) ss

unfoldable pub sge_len : List Sge → ℕ → ℕ → Option ℕ
unfolding len_behind
sge_len sges sge_idx sge_off = elim (drop sge_idx sges) [
  | [] ↦ none
  | s ∷ ss ↦
      let total = len_behind (sub32 s.length sge_off) ss in
      if ltb s.length sge_off then none else if ltb total (2 ^ 32) then some total else none
]

-- `roce_sge_pages`, with the mask in 32 bits.
unfoldable pub sge_pages_from : ℕ → List Sge → ℕ → ℕ
sge_pages_from pages [] page_size = pages
sge_pages_from pages (s ∷ ss) page_size =
    let mask = not32 (page_size - 1) in
    let aligndown = bit_and s.addr mask in
    let alignup = bit_and (u64 (u64 (s.addr + s.length) + page_size - 1)) mask in
    sge_pages_from (u32 (pages + sub64 alignup aligndown / page_size)) ss page_size

unfoldable pub sge_pages : List Sge → ℕ → Option ℕ
unfolding power_of_2 sge_pages_from
sge_pages sges page_size =
    if power_of_2 page_size then some (sge_pages_from 0 sges page_size) else none

-- What `roce_sge_advance` leaves: the count returned, the entries written, how many entries it has
-- passed, and the offset in the next.
pub record Picked : Type 0 where
  pub count : ℕ
  pub dst : List Sge
  pub passed : ℕ
  pub off : ℕ

-- The loop, over the entries from `*sge_idx` on.
unfoldable pub advance_loop : List Sge → ℕ → ℕ → ℕ → Picked
advance_loop [] bytes off dst_idx = record {
  count = u32 (dst_idx + 1);
  dst = [];
  passed = 0;
  off = off;
}
advance_loop (s ∷ ss) bytes off dst_idx =
    let remained = sub32 s.length off in
    let rest = advance_loop ss (sub32 bytes remained) 0 (u32 (dst_idx + 1)) in
    if ltb bytes remained
    then record {
      count = u32 (dst_idx + 1);
      dst = record { addr = u64 (s.addr + off); length = bytes; lkey = s.lkey } ∷ [];
      passed = 0;
      off = u32 (off + bytes);
    }
    else if remained == bytes
    then record {
      count = u32 (dst_idx + 1);
      dst = record { addr = u64 (s.addr + off); length = remained; lkey = s.lkey } ∷ [];
      passed = 1;
      off = 0;
    }
    else record rest {
      dst = record { addr = u64 (s.addr + off); length = remained; lkey = s.lkey } ∷ rest.dst;
      passed = suc rest.passed;
    }

-- `roce_sge_advance`; `*sge_idx` moves on by `passed`.
unfoldable pub sge_advance : List Sge → ℕ → ℕ → ℕ → Option Picked
unfolding advance_loop
sge_advance sges bytes sge_idx off = elim (drop sge_idx sges) [
  | [] ↦ none
  | s ∷ ss ↦
      if ltb s.length off
      then none
      else if bytes == 0
      then some (record { count = 0; dst = []; passed = 0; off = off })
      else some (advance_loop (s ∷ ss) bytes off 0)
]
