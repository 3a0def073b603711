-- ===== src/Counted/Refs.antt =====
-- Counts of references against the objects in the table.
use libroce.Base.{
  ℤ, leb, einval, ebusy, ==_iff, false, enomem, if◌then◌else◌, ℕ, ◌+◌, ◌≡◌, ◌≢◌, refl, ap, ◌∙◌,
  some, pos, ◌==◌, update, false, arith,
}
use libroce.Word.{u32, sub32}
use libroce.Resource.{Resource, alloc, get}
use libroce.Resource.Slots.{clear, slot, IsValid, get-slot}
use libroce.Resource.Placed.{slot-lt}
use libroce.Counted.{remove, enter, entered, Counted, get_ref, put_ref}

-- The object `p` is in the table, at its handle.
pub record IsIn (s : Counted) (p : ℕ) : Type 0 where
  pub real : p ≢ 0
  pub at : slot s.table (s.table.handle p) ≡ p

module _ (s : Counted) (v : IsValid s.table) where
  null : (p : ℕ) → p ≢ 0 → (p == 0) ≡ false
  null p n = ground arith

  -- What a lookup with the handle of an object in the table finds.
  found : (p : ℕ) → IsIn s p → get s.table (s.table.handle p) ≡ some p
  found p i = get-slot s.table (s.table.handle p) v ∙ ap some i.at

  pub slot-IsIn : (h : ℕ) → slot s.table h ≢ 0 → IsIn s (slot s.table h)
  slot-IsIn h n = record { real = n; at = ap (slot s.table) (v.knows h n) }

  pub get_ref-null : (h : ℕ) → slot s.table h ≡ 0 → get_ref s h ≡ some (0, s)
  unfolding get_ref
  get_ref-null h z = rw (get-slot s.table h v ∙ ap some z, get_ref) refl

  pub get_ref-slot :
      (h : ℕ)
      → slot s.table h ≢ 0
      → let p = slot s.table h in
        get_ref s h ≡ some (p, record s { ref = update s.ref p (u32 (s.ref p + 1)) })
  unfolding get_ref
  get_ref-slot h n = rw (get-slot s.table h v, null (slot s.table h) n, get_ref) refl

  pub put_ref-handle :
      (p : ℕ)
      → IsIn s p
      → put_ref s (s.table.handle p)
        ≡ some (pos 0, record s { ref = update s.ref p (sub32 (s.ref p) 1) })
  unfolding put_ref
  put_ref-handle p i = rw (found p i, null p i.real, put_ref) refl

  pub remove-null : (h : ℕ) → slot s.table h ≡ 0 → remove s h ≡ some (einval, s)
  unfolding remove
  remove-null h z = rw (get-slot s.table h v ∙ ap some z, remove) refl

  pub remove-busy :
      (h : ℕ) → slot s.table h ≢ 0 → s.ref (slot s.table h) ≢ 0 → remove s h ≡ some (ebusy, s)
  unfolding remove
  remove-busy h n m =
      rw (get-slot s.table h v, null (slot s.table h) n, null (s.ref (slot s.table h)) m, remove)
        refl

  pub remove-clear :
      (h : ℕ)
      → slot s.table h ≢ 0
      → s.ref (slot s.table h) ≡ 0
      → remove s h ≡ some (pos 0, record s { table = clear s.table h })
  unfolding remove
  remove-clear h n z =
      rw
        (
          get-slot s.table h v,
          null (slot s.table h) n,
          (==_iff (s.ref (slot s.table h)) 0).1 z,
          within,
          remove,
        )
        refl
    where
      within : leb s.table.size h ≡ false
      within = ground (arith, slot-lt s.table v h n, v.full)

-- What `enter` does with an object that is not null, from what `roce_resource_alloc` does.
pub enter-alloc :
    (s : Counted) (p : ℕ) (r : ℤ × Resource)
    → p ≢ 0
    → alloc s.table p ≡ r
    → enter s p ≡ entered s p r
unfolding enter
enter-alloc s p r n e =
    ap (λ b. if b then (enomem, s) else entered s p (alloc s.table p)) test ∙ ap (entered s p) e
  where
    test : (p == 0) ≡ false
    test = ground arith

pub enter_null : (s : Counted) (p : ℕ) → p ≡ 0 → enter s p ≡ (enomem, s)
unfolding enter
enter_null s p z =
    ap (λ b. if b then (enomem, s) else entered s p (alloc s.table p)) ((==_iff p 0).1 z)
