-- ===== src/Ah.antt =====
-- ah.c: address handles, each of which holds a reference of its protection domain. `none` is a
-- failed assertion.
use libroce.Base.{
  ℕ, zero, List, ◌==◌, Option, none, some, ℤ, pos, negsuc, einval, update, if◌then◌else◌,
}
use libroce.Resource.{get}
use libroce.Counted.{Counted, enter, get_ref, put_ref, remove}
use libroce.Pd.{Pds, get_pd, put_pd_asserted}

-- `roce_ah_attr`.
pub record AhAttr : Type 0 where
  pub gid : List ℕ
  pub mac : List ℕ
  pub flow_label : ℕ
  pub sgid_index : ℕ
  pub hop_limit : ℕ
  pub traffic_class : ℕ
  pub port_num : ℕ

-- The handles by address, `roce_ah`.
pub record Ahs : Type 0 where
  pub objects : Counted
  pub pd : ℕ → ℕ
  pub attr : ℕ → AhAttr
  pub ah_ctx : ℕ → ℕ

-- What follows `roce_resource_alloc` for the handle at `p` of the domain `d`.
unfoldable pub ah_entered :
    Pds → Ahs → ℕ → ℕ → ℕ → AhAttr → ℕ → ℤ × Counted → Option (ℤ × Pds × Ahs)
unfolding put_pd_asserted
ah_entered ps s pd_handle d p attr ctx (pos i, c) = some (
  pos i,
  ps,
  record s {
    objects = c;
    pd = update s.pd p d;
    attr = update s.attr p attr;
    ah_ctx = update s.ah_ctx p ctx;
  },
)
ah_entered ps s pd_handle d p attr ctx (negsuc e, c) = elim (put_pd_asserted ps pd_handle) [
  | none ↦ none
  | some ps' ↦ some (negsuc e, ps', record s { objects = c })
]

-- `roce_create_ah`, with what `roce_calloc` returned.
unfoldable pub create_ah : Pds → Ahs → ℕ → ℕ → AhAttr → ℕ → Option (ℤ × Pds × Ahs)
unfolding get_pd enter ah_entered
create_ah ps s pd_handle p attr ctx = elim (get_pd ps pd_handle) [
  | none ↦ none
  | some (d, ps') ↦
      if d == 0
      then some (einval, ps, s)
      else ah_entered ps' s pd_handle d p attr ctx (enter s.objects p)
]

unfoldable pub get_ah : Ahs → ℕ → Option (ℕ × Ahs)
unfolding get_ref
get_ah s h = elim (get_ref s.objects h) [
  | none ↦ none
  | some (p, c) ↦ some (p, record s { objects = c })
]

unfoldable pub put_ah : Ahs → ℕ → Option (ℤ × Ahs)
unfolding put_ref
put_ah s h = elim (put_ref s.objects h) [
  | none ↦ none
  | some (ret, c) ↦ some (ret, record s { objects = c })
]

-- What `roce_destroy_ah` does behind `roce_resource_free`, for the handle at `p`.
unfoldable pub ah_left : Pds → Ahs → ℕ → ℤ × Counted → Option (ℤ × Pds × Ahs)
unfolding put_pd_asserted
ah_left ps s p (pos zero, c) = elim (put_pd_asserted ps (ps.objects.table.handle (s.pd p))) [
  | none ↦ none
  | some ps' ↦ some (pos 0, ps', record s { objects = c })
]
ah_left ps s p (ret, c) = some (ret, ps, record s { objects = c })

unfoldable pub destroy_ah : Pds → Ahs → ℕ → Option (ℤ × Pds × Ahs)
unfolding get remove ah_left
destroy_ah ps s h = elim (get s.objects.table h) [
  | none ↦ none
  | some p ↦ elim (remove s.objects h) [ none ↦ none | some r ↦ ah_left ps s p r ]
]
