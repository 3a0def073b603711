-- ===== src/Pd/Sound.antt =====
-- The references of protection domains: each stands for an address handle in the table, or for
-- another holder.
use native.Mathlib.Decide.{ℕ_discrete}
use libroce.Base.{
  ℕ, ◌+◌, ◌-◌, ◌^◌, ◌≤◌, ◌<◌, ◌≡◌, ◌≢◌, refl, sym, ap, ◌∙◌, subst, some, update, update_self,
  update_ne, length, arith,
}
use libroce.Word.{u32, sub32}
use libroce.Resource.{Resource}
use libroce.Resource.Slots.{slot, IsValid}
use libroce.Counted.{put_ref}
use libroce.Counted.Refs.{get_ref-slot, put_ref-handle, slot-IsIn}
use libroce.Counted.Pointing.{pointing, pointing, pointing-le}
use libroce.Pd.{Pds, get_pd, put_pd, put_pd_asserted}

-- The object `d` is in a slot of the table.
abbrev pub InSlot : Resource → ℕ → Type 0
InSlot r d = (i : ℕ) × (slot r i ≡ d)

abbrev pub Live : Resource → ℕ → Type 0
Live r d = (d ≢ 0) × InSlot r d

-- `others d` references of the domain `d` are held by others than address handles.
pub record Sound (ps : Pds) (t : Resource) (f : ℕ → ℕ) (others : ℕ → ℕ) : Type 0 where
  pub pds_valid : IsValid ps.objects.table
  pub table_valid : IsValid t
  pub small : length t.addr ≤ 2 ^ 24
  -- Every count is right.
  pub counts :
      (d : ℕ)
      → d ≢ 0
      → InSlot ps.objects.table d
      → ps.objects.ref d ≡ pointing f d t.addr + others d
  -- What is referred to is there.
  pub live : (i : ℕ) → slot t i ≢ 0 → Live ps.objects.table (f (slot t i))
  pub held : (d : ℕ) → others d ≢ 0 → Live ps.objects.table d

-- The same with a count of others that is equal everywhere.
pub Sound-others :
    (ps : Pds) (t : Resource) (f : ℕ → ℕ) (others others' : ℕ → ℕ)
    → ((d : ℕ) → others d ≡ others' d)
    → Sound ps t f others
    → Sound ps t f others'
Sound-others ps t f others others' e h = record {
  pds_valid = h.pds_valid;
  table_valid = h.table_valid;
  small = h.small;
  counts = λ d n i. omega (arith, h.counts d n i, e d);
  live = h.live;
  held = λ d n. h.held d (λ z. n (sym (e d) ∙ z));
}

module _ (ps : Pds) (t : Resource) (f : ℕ → ℕ) (others : ℕ → ℕ) (h : Sound ps t f others) where
  -- The count of the domain in the slot `i` changes, and with it that of its other holders.
  recount :
      (i k k' : ℕ)
      → slot ps.objects.table i ≢ 0
      → let d = slot ps.objects.table i in
        k ≡ pointing f d t.addr + k'
        → Sound
            (record ps { objects = record ps.objects { ref = update ps.objects.ref d k } })
            t
            f
            (update others d k')
  recount i k k' n e = record {
    pds_valid = h.pds_valid;
    table_valid = h.table_valid;
    small = h.small;
    counts = λ q m at. elim (ℕ_discrete q (slot ps.objects.table i)) [
      | yes same ↦
          subst (λ x. update ps.objects.ref d k x ≡ pointing f x t.addr + update others d k' x)
            (sym same)
            (update_self ps.objects.ref d k
              ∙ e
              ∙ ap (λ x. pointing f d t.addr + x) (sym (update_self others d k')))
      | no ne ↦
          update_ne ps.objects.ref d k q ne
          ∙ h.counts q m at
          ∙ ap (λ x. pointing f q t.addr + x) (sym (update_ne others d k' q ne))
    ];
    live = h.live;
    held = λ q m. elim (ℕ_discrete q d) [
      | yes same ↦ (subst (λ x. x ≢ 0) (sym same) n, (i, sym same))
      | no ne ↦ h.held q (λ z. m (update_ne others d k' q ne ∙ z))
    ];
  }
    where
      d : ℕ
      d = slot ps.objects.table i

  -- A holder takes a reference.
  pub get_pd-Sound :
      (i : ℕ)
      → slot ps.objects.table i ≢ 0
      → let d = slot ps.objects.table i in
        others d + 2 ^ 24 + 1 < 2 ^ 32
        → (ps' : Pds) × (get_pd ps i ≡ some (d, ps'))
          × Sound ps' t f (update others d (others d + 1))
          × (ps'.objects.table ≡ ps.objects.table)
  unfolding get_pd
  get_pd-Sound i n room =
      let d = slot ps.objects.table i in
      let bound = pointing-le f d t.addr in
      (
        record ps {
          objects = record ps.objects {
            ref = update ps.objects.ref d (u32 (ps.objects.ref d + 1));
          };
        },
        rw (get_ref-slot ps.objects h.pds_valid i n, get_pd) refl,
        recount i (u32 (ps.objects.ref d + 1)) (others d + 1) n
            (omega (arith, h.counts d n (i, refl), h.small)),
        refl,
      )

  -- A holder that is not an address handle puts its reference.
  pub put_pd-Sound :
      (i : ℕ)
      → slot ps.objects.table i ≢ 0
      → let d = slot ps.objects.table i in
        others d + 2 ^ 24 < 2 ^ 32
        → others d ≢ 0
        → (ps' : Pds) × (put_pd_asserted ps i ≡ some ps')
          × Sound ps' t f (update others d (others d - 1))
          × (ps'.objects.table ≡ ps.objects.table)
  unfolding put_pd_asserted put_pd
  put_pd-Sound i n room some_left =
      let d = slot ps.objects.table i in
      let bound = pointing-le f d t.addr in
      let at : ps.objects.table.handle d ≡ i = h.pds_valid.knows i n in
      (
        record ps {
          objects = record ps.objects {
            ref = update ps.objects.ref d (sub32 (ps.objects.ref d) 1);
          };
        },
        rw
            (
              ap (put_ref ps.objects) (sym at)
                  ∙ put_ref-handle ps.objects h.pds_valid d (slot-IsIn ps.objects h.pds_valid i n),
              put_pd,
              put_pd_asserted,
            )
            refl,
        recount i (sub32 (ps.objects.ref d) 1) (others d - 1) n
            (omega (arith, h.counts d n (i, refl), h.small)),
        refl,
      )
