-- ===== src/Pd/Safety.antt =====
-- The calls on protection domains and address handles: no assertion fails, and no domain that is
-- referred to is freed.
use native.Mathlib.Decide.{ℕ_discrete}
use libroce.Base.{
  ℕ, ◌+◌, ◌^◌, ◌<◌, ◌≡◌, ◌≢◌, ◌⊎◌, refl, ap, ◌∙◌, Option, none, some, ℤ, pos, einval, ebusy, enomem,
  arith, inl, inr,
}
use libroce.Resource.{put}
use libroce.Resource.Slots.{slot, IsFresh, clear}
use libroce.Resource.Placed.{alloc-put}
use libroce.Counted.Refs.{enter-alloc, enter_null, remove-null, remove-busy, remove-clear}
use libroce.Counted.Pointing.{pointing-some}
use libroce.Pd.{Pds, alloc_pd, dealloc_pd, pd_entered}
use libroce.Pd.Domains.{dealloc-Sound, alloc-Sound}
use libroce.Pd.Calls.{SoundAhs, Succeeds, IsFresh-of, create_ah-Succeeds, destroy_ah-Succeeds}
use libroce.Ah.{Ahs, AhAttr, create_ah, destroy_ah}

-- A call of a client.
pub data Call : Type 0 where
  allocate : (p ctx : ℕ) → Call
  deallocate : (i : ℕ) → Call
  create : (i p : ℕ) → AhAttr → ℕ → Call
  destroy : (i : ℕ) → Call

-- What it returns and leaves; `none` is a failed assertion.
abbrev pub run : Call → Pds → Ahs → Option (ℤ × Pds × Ahs)
run (allocate p ctx) ps ahs = some ((alloc_pd ps p ctx).0, (alloc_pd ps p ctx).1, ahs)
run (deallocate i) ps ahs = elim (dealloc_pd ps i) [
  | none ↦ none
  | some (ret, ps') ↦ some (ret, ps', ahs)
]
run (create i p attr ctx) ps ahs = create_ah ps ahs i p attr ctx
run (destroy i) ps ahs = destroy_ah ps ahs i

-- What `roce_calloc` returns is null or not in use.
abbrev pub IsFair : Call → Pds → Ahs → Type 0
IsFair (allocate p ctx) ps ahs = (p ≡ 0) ⊎ IsFresh ps.objects.table p
IsFair (create i p attr ctx) ps ahs = (p ≡ 0) ⊎ IsFresh ahs.objects.table p
IsFair c ps ahs = Unit

module _ (ps : Pds) (ahs : Ahs) (others : ℕ → ℕ) (h : SoundAhs ps ahs others) where
  alloc_pd-Succeeds :
      (p ctx : ℕ)
      → (p ≡ 0) ⊎ IsFresh ps.objects.table p
      → Succeeds others (run (allocate p ctx) ps ahs)
  unfolding alloc_pd
  alloc_pd-Succeeds p ctx fair = elim (ℕ_discrete p 0) [
    | yes z ↦ (
      enomem,
      ps,
      ahs,
      ap (λ r. some ((pd_entered ps p ctx r).0, (pd_entered ps p ctx r).1, ahs))
          (enter_null ps.objects p z),
      h,
    )
    | no n ↦ elim (alloc-put ps.objects.table h.pds_valid p n) [
      | inl (i, put_in, lt, free) ↦ (
        pos i,
        _,
        ahs,
        ap (λ r. some ((pd_entered ps p ctx r).0, (pd_entered ps p ctx r).1, ahs))
            (enter-alloc ps.objects p (pos i, put ps.objects.table p i) n put_in),
        alloc-Sound ps ahs.objects.table ahs.pd others h p i ctx
            (IsFresh-of ps.objects.table p fair n) n lt free,
      )
      | inr full ↦ (
        ebusy,
        ps,
        ahs,
        ap (λ r. some ((pd_entered ps p ctx r).0, (pd_entered ps p ctx r).1, ahs))
            (enter-alloc ps.objects p (ebusy, ps.objects.table) n full),
        h,
      )
    ]
  ]

  dealloc_pd-Succeeds : (i : ℕ) → Succeeds others (run (deallocate i) ps ahs)
  unfolding dealloc_pd
  dealloc_pd-Succeeds i = elim (ℕ_discrete (slot ps.objects.table i) 0) [
    | yes z ↦
        (einval, ps, ahs, rw (remove-null ps.objects h.pds_valid i z, run, dealloc_pd) refl, h)
    | no n ↦ elim (ℕ_discrete (ps.objects.ref (slot ps.objects.table i)) 0) [
      | no m ↦
          (ebusy, ps, ahs, rw (remove-busy ps.objects h.pds_valid i n m, run, dealloc_pd) refl, h)
      | yes z ↦ (
        pos 0,
        record ps { objects = record ps.objects { table = clear ps.objects.table i } },
        ahs,
        rw (remove-clear ps.objects h.pds_valid i n z, run, dealloc_pd) refl,
        dealloc-Sound ps ahs.objects.table ahs.pd others h i n z,
      )
    ]
  ]

  -- In sound tables, where every count of others leaves room for one more reference in 32 digits,
  -- and `roce_calloc` returns memory that is not in use or null: each of `roce_alloc_pd`,
  -- `roce_dealloc_pd`, `roce_create_ah` and `roce_destroy_ah` passes its assertions and leaves
  -- sound tables, in which the reference count of each domain is that of the address handles that
  -- point to it and of its other holders, and every handle points to a domain in the table; and a
  -- domain that an address handle points to is not freed: `roce_dealloc_pd` returns -EBUSY and
  -- changes nothing.
  pub run-Sound :
      ((d : ℕ) → others d + 2 ^ 24 + 1 < 2 ^ 32)
      → ((c : Call) → IsFair c ps ahs → Succeeds others (run c ps ahs))
        × ((i j : ℕ)
            → slot ahs.objects.table j ≢ 0
            → ahs.pd (slot ahs.objects.table j) ≡ slot ps.objects.table i
            → dealloc_pd ps i ≡ some (ebusy, ps))
  unfolding dealloc_pd
  run-Sound room = (
    step,
    λ i j n e.
        let (m, _) = h.live j n in
        let real : slot ps.objects.table i ≢ 0 = λ z. m (e ∙ z) in
        let counted = h.counts (slot ps.objects.table i) real (i, refl) in
        let some_one =
          pointing-some ahs.pd (slot ps.objects.table i) ahs.objects.table.addr j n e in
        rw
          (
            remove-busy ps.objects h.pds_valid i real (λ z. omega (arith, counted, some_one)),
            dealloc_pd,
          )
          refl,
  )
    where
      step : (c : Call) → IsFair c ps ahs → Succeeds others (run c ps ahs)
      step (allocate p ctx) fair = alloc_pd-Succeeds p ctx fair
      step (deallocate i) fair = dealloc_pd-Succeeds i
      step (create i p attr ctx) fair = create_ah-Succeeds ps ahs others h i p attr ctx fair room
      step (destroy i) fair = destroy_ah-Succeeds ps ahs others h i room
