-- ===== src/Mr/Map.antt =====
-- mr.c: `roce_mr_map_sge`, which checks the elements of a work request against their regions and
-- lists the memory behind them.
use libroce.Base.{
  ℕ, ◌+◌, ◌/◌, ◌%◌, List, [], ◌∷◌, Option, none, some, ℤ, pos, eacces, ◌==◌, ltb, ◌||◌, ◌&&◌, not,
  Bool, true, false, if◌then◌else◌, bit_and, drop,
}
use libroce.Word.{u32, u64, sub64}
use libroce.Resource.{get}
use libroce.Iov.{Iov, copy}
use libroce.Sge.{Sge}
use libroce.Qp.{QpType, gsi}
use libroce.Mr.{MrType, mem, frmr, dma, max_type, MrState, valid, Mr, Mrs, key_to_index}

abbrev pub is_valid : MrState → Bool
is_valid valid = true
is_valid state = false

-- The type of the elements before is that of the region; `max_type` where there are none.
abbrev pub same_type : MrType → MrType → Bool
same_type max_type b = true
same_type mem mem = true
same_type frmr frmr = true
same_type dma dma = true
same_type a b = false

abbrev pub is_gsi : QpType → Bool
is_gsi gsi = true
is_gsi type = false

-- The tests that do not depend on the region's type, in their order; each failure is -EACCES.
unfoldable pub allowed : ℕ → Bool → ℕ → MrType → Mr → Sge → Bool
allowed qp_pd local access type mr g =
    ((if local then mr.lkey else mr.rkey) == g.lkey)
    && (mr.pd == qp_pd)
    && is_valid mr.state
    && (bit_and access mr.access == access)
    && same_type type mr.type

-- The negated test of the range, in 64 bits.
unfoldable pub in_range : Mr → Sge → Bool
in_range mr g =
    not (ltb g.addr mr.iova || ltb (u64 (mr.iova + mr.length)) (u64 (g.addr + g.length)))

-- What one element adds: the entries written, the count that `num_iov` grows by, and `*dmamap`.
pub data Mapped : Type 0 where
  broken refused : Mapped
  mapped : List Iov → ℕ → Bool → Mapped

unfoldable pub map_pages : Mr → Sge → Mapped
unfolding copy
map_pages mr g =
    let off_pages = u32 (sub64 (g.addr / mr.page_size) (mr.iova / mr.page_size)) in
    elim (copy (drop off_pages mr.iovs) (g.addr % mr.page_size) g.length) [
      | none ↦ broken
      | some (iovs, n) ↦ mapped iovs n false
    ]

-- `dma_map` is the callback of the context.
module _ (dma_map : ℕ → ℕ → ℕ) where
  unfoldable pub map_one : QpType → Mr → Sge → MrType → Mapped
  unfolding map_pages in_range
  map_one qp_type mr g dma =
      if is_gsi qp_type
      then mapped (record { base = dma_map g.addr g.length; len = g.length } ∷ []) 1 true
      else refused
  map_one qp_type mr g type = if in_range mr g then map_pages mr g else refused

  -- The loop: what it returns, the entries written with the index that they start from, and
  -- `*dmamap`.
  unfoldable pub map_from :
      Mrs
      → ℕ
      → QpType
      → Bool
      → ℕ
      → List Sge
      → MrType
      → ℕ
      → Bool
      → Option (ℤ × List (ℕ × List Iov) × Bool)
  unfolding key_to_index get allowed map_one
  map_from s qp_pd qp_type local access [] type num_iov dmamap = some (pos num_iov, [], dmamap)
  map_from s qp_pd qp_type local access (g ∷ gs) type num_iov dmamap =
      elim (get s.objects.table (key_to_index g.lkey)) [
        | none ↦ none
        | some p ↦
            if p == 0 || not (allowed qp_pd local access type (s.mr p) g)
            then some (eacces, [], dmamap)
            else elim (map_one qp_type (s.mr p) g ((s.mr p).type)) [
              | broken ↦ none
              | refused ↦ some (eacces, [], dmamap)
              | mapped iovs n d ↦
                  elim (map_from s qp_pd qp_type local access gs ((s.mr p).type) (u32 (num_iov + n))
                    d) [
                      | none ↦ none
                      | some (ret, written, d') ↦ some (ret, (num_iov, iovs) ∷ written, d')
                    ]
            ]
      ]

  -- `roce_mr_map_sge` for a queue pair of a domain and a type.
  unfoldable pub map_sge :
      Mrs → ℕ → QpType → List Sge → Bool → ℕ → Bool → Option (ℤ × List (ℕ × List Iov) × Bool)
  unfolding map_from
  map_sge s qp_pd qp_type sges local access dmamap =
      map_from s qp_pd qp_type local access sges max_type 0 dmamap
