-- ===== src/Pd.antt =====
-- pd.c: protection domains. `none` is a failed assertion.
pub mod Sound
pub mod Entries
pub mod Domains
pub mod Calls
pub mod Safety
use libroce.Base.{ℕ, zero, Option, none, some, ℤ, pos, negsuc, update}
use libroce.Counted.{Counted, enter, get_ref, put_ref, remove}

-- The domains by address, `roce_pd`.
pub record Pds : Type 0 where
  pub objects : Counted
  pub pd_ctx : ℕ → ℕ

abbrev pub pd_entered : Pds → ℕ → ℕ → ℤ × Counted → ℤ × Pds
pd_entered s p ctx (pos i, c) = (pos i, record s { objects = c; pd_ctx = update s.pd_ctx p ctx })
pd_entered s p ctx (negsuc e, c) = (negsuc e, record s { objects = c })

-- `roce_alloc_pd`, with what `roce_calloc` returned.
unfoldable pub alloc_pd : Pds → ℕ → ℕ → ℤ × Pds
unfolding enter
alloc_pd s p ctx = pd_entered s p ctx (enter s.objects p)

unfoldable pub get_pd : Pds → ℕ → Option (ℕ × Pds)
unfolding get_ref
get_pd s h = elim (get_ref s.objects h) [
  | none ↦ none
  | some (p, c) ↦ some (p, record s { objects = c })
]

unfoldable pub put_pd : Pds → ℕ → Option (ℤ × Pds)
unfolding put_ref
put_pd s h = elim (put_ref s.objects h) [
  | none ↦ none
  | some (ret, c) ↦ some (ret, record s { objects = c })
]

unfoldable pub dealloc_pd : Pds → ℕ → Option (ℤ × Pds)
unfolding remove
dealloc_pd s h = elim (remove s.objects h) [
  | none ↦ none
  | some (ret, c) ↦ some (ret, record s { objects = c })
]

-- `ROCE_ASSERT(!roce_put_pd(ctx, pd_handle))`.
unfoldable pub put_pd_asserted : Pds → ℕ → Option Pds
unfolding put_pd
put_pd_asserted s h = elim (put_pd s h) [ some (pos zero, s') ↦ some s' | _ ↦ none ]
