-- ===== src/Pd/Domains.antt =====
-- The references of protection domains when a domain enters its table or leaves it.
use native.Mathlib.Decide.{ℕ_discrete}
use libroce.Base.{
  ℕ, ◌+◌, ◌<◌, ◌≡◌, ◌≢◌, refl, sym, ap, ◌∙◌, subst, update, update_self, update_ne, length, arith,
}
use libroce.Resource.{Resource, put}
use libroce.Resource.Slots.{slot, IsFresh, clear, put-IsValid, clear-IsValid}
use libroce.Resource.Placed.{slot-put_self, slot-put_ne, slot-clear_self, slot-clear_ne}
use libroce.Counted.Pointing.{pointing, pointing, pointing-some, pointing_none}
use libroce.Pd.{Pds}
use libroce.Pd.Sound.{InSlot, Live, Sound}

module _ (ps : Pds) (t : Resource) (f : ℕ → ℕ) (others : ℕ → ℕ) (h : Sound ps t f others) where
  -- A domain that has no reference is taken out of its table.
  pub dealloc-Sound :
      (i : ℕ)
      → slot ps.objects.table i ≢ 0
      → ps.objects.ref (slot ps.objects.table i) ≡ 0
      → Sound
          (record ps { objects = record ps.objects { table = clear ps.objects.table i } })
          t
          f
          others
  dealloc-Sound i n z = record {
    pds_valid = clear-IsValid ps.objects.table i h.pds_valid;
    table_valid = h.table_valid;
    small = h.small;
    counts = λ q m at. h.counts q m (before q m at);
    live = λ j m.
        kept (f (slot t j)) (h.live j m)
          (λ e. omega (arith, count, pointing-some f d t.addr j m e));
    held = λ q m. kept q (h.held q m) (λ e. m (ap others e ∙ omega (arith, count)));
  }
    where
      d : ℕ
      d = slot ps.objects.table i

      count : 0 ≡ pointing f d t.addr + others d
      count = sym z ∙ h.counts d n (i, refl)

      before : (q : ℕ) → q ≢ 0 → InSlot (clear ps.objects.table i) q → InSlot ps.objects.table q
      before q m (j, at) = elim (ℕ_discrete i j) [
        | yes e ↦ absurd (
            m (
              sym at
              ∙ ap (slot (clear ps.objects.table i)) (sym e)
              ∙ slot-clear_self ps.objects.table h.pds_valid i))
        | no ne ↦ (j, sym (slot-clear_ne ps.objects.table h.pds_valid i j ne) ∙ at)
      ]

      kept : (q : ℕ) → Live ps.objects.table q → q ≢ d → Live (clear ps.objects.table i) q
      kept q (m, (j, at)) ne = (
        m,
        (
          j,
          slot-clear_ne ps.objects.table h.pds_valid i j
                (λ e. ne (sym at ∙ ap (slot ps.objects.table) (sym e)))
              ∙ at,
        ),
      )

  -- A new domain is put in its table.
  pub alloc-Sound :
      (p i ctx : ℕ)
      → IsFresh ps.objects.table p
      → p ≢ 0
      → i < length ps.objects.table.addr
      → slot ps.objects.table i ≡ 0
      → Sound
          (record {
            objects = record { table = put ps.objects.table p i; ref = update ps.objects.ref p 0 };
            pd_ctx = update ps.pd_ctx p ctx;
          })
          t
          f
          others
  alloc-Sound p i ctx fresh n lt free = record {
    pds_valid =
        put-IsValid ps.objects.table p i h.pds_valid fresh (omega (arith, h.pds_valid.full));
    table_valid = h.table_valid;
    small = h.small;
    counts = λ q m at. elim (ℕ_discrete q p) [
      | yes e ↦
          subst (λ x. update ps.objects.ref p 0 x ≡ pointing f x t.addr + others x) (sym e)
            (update_self ps.objects.ref p 0
              ∙ omega (arith, unpointed, unheld (ℕ_discrete (others p) 0)))
      | no ne ↦ update_ne ps.objects.ref p 0 q ne ∙ h.counts q m (before q ne at)
    ];
    live = λ j m. after_put (f (slot t j)) (h.live j m);
    held = λ q m. after_put q (h.held q m);
  }
    where
      r : Resource
      r = ps.objects.table

      unpointed : pointing f p t.addr ≡ 0
      unpointed = pointing_none f p t.addr (λ j m e. absent (subst (Live r) e (h.live j m)))
        where
          absent : Live r p → ⊥
          absent (m, (j, at)) = fresh j at

      unheld : Dec (others p ≡ 0) → others p ≡ 0
      unheld (yes z) = z
      unheld (no m) = absurd (absent (h.held p m))
        where
          absent : Live r p → ⊥
          absent (m, (j, at)) = fresh j at

      before : (q : ℕ) → q ≢ p → InSlot (put r p i) q → InSlot r q
      before q ne (j, at) = elim (ℕ_discrete i j) [
        | yes e ↦
            absurd
              (ne (sym at ∙ ap (slot (put r p i)) (sym e) ∙ slot-put_self r h.pds_valid p i lt))
        | no nj ↦ (j, sym (slot-put_ne r h.pds_valid p i j nj) ∙ at)
      ]

      after_put : (q : ℕ) → Live r q → Live (put r p i) q
      after_put q (m, (j, at)) = (
        m,
        (j, slot-put_ne r h.pds_valid p i j (λ e. m (sym at ∙ ap (slot r) (sym e) ∙ free)) ∙ at),
      )
