-- ===== src/Cq.antt =====
-- cq.c: completion queues. `none` is a failed assertion.
use libroce.Base.{ℕ, ◌==◌, ltb, Option, none, some, ℤ, pos, negsuc, einval, update, if◌then◌else◌}
use libroce.Resource.{get}
use libroce.Counted.{Counted, enter, get_ref, put_ref, remove}

-- The queues by address, `roce_cq`.
pub record Cqs : Type 0 where
  pub objects : Counted
  pub cqe : ℕ → ℕ
  pub comp_vector : ℕ → ℕ
  pub ctx : ℕ → ℕ

abbrev pub cq_entered : Cqs → ℕ → ℕ → ℕ → ℕ → ℤ × Counted → ℤ × Cqs
cq_entered s p cqe comp_vector ctx (pos i, c) = (
  pos i,
  record s {
    objects = c;
    cqe = update s.cqe p cqe;
    comp_vector = update s.comp_vector p comp_vector;
    ctx = update s.ctx p ctx;
  },
)
cq_entered s p cqe comp_vector ctx (negsuc e, c) = (negsuc e, record s { objects = c })

-- `roce_create_cq` on a device of `max_cqe`, with what `roce_calloc` returned. `cqe` is not
-- negative.
unfoldable pub create_cq : ℕ → Cqs → ℕ → ℕ → ℕ → ℕ → ℤ × Cqs
unfolding enter
create_cq max_cqe s p cqe comp_vector ctx =
    if ltb max_cqe cqe then (einval, s) else cq_entered s p cqe comp_vector ctx (enter s.objects p)

-- `roce_cq_ctx`: what it returns, and what it writes where that is 0.
unfoldable pub cq_ctx : Cqs → ℕ → Option (ℤ × Option ℕ)
unfolding get
cq_ctx s h = elim (get s.objects.table h) [
  | none ↦ none
  | some p ↦ if p == 0 then some (einval, none) else some (pos 0, some (s.ctx p))
]

unfoldable pub get_cq : Cqs → ℕ → Option (ℕ × Cqs)
unfolding get_ref
get_cq s h = elim (get_ref s.objects h) [
  | none ↦ none
  | some (p, c) ↦ some (p, record s { objects = c })
]

unfoldable pub put_cq : Cqs → ℕ → Option (ℤ × Cqs)
unfolding put_ref
put_cq s h = elim (put_ref s.objects h) [
  | none ↦ none
  | some (ret, c) ↦ some (ret, record s { objects = c })
]

unfoldable pub destroy_cq : Cqs → ℕ → Option (ℤ × Cqs)
unfolding remove
destroy_cq s h = elim (remove s.objects h) [
  | none ↦ none
  | some (ret, c) ↦ some (ret, record s { objects = c })
]
