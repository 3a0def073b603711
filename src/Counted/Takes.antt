-- ===== src/Counted/Takes.antt =====
-- References taken and put in turn: the counts against those from before.
use native.Mathlib.Decide.{ℕ_discrete}
use libroce.Base.{
  ℕ, ◌+◌, ◌-◌, ◌≡◌, ◌≢◌, ◌==◌, sym, ap, ◌∙◌, subst, some, pos, update, update_self, update_ne,
  if◌then◌else◌, arith,
}
use libroce.Word.{u32, sub32}
use libroce.Resource.Slots.{slot, IsValid}
use libroce.Counted.{Counted, get_ref, put_ref}
use libroce.Counted.Refs.{get_ref-slot, put_ref-handle, slot-IsIn}

-- The references of `d` that a holder of `p` has, who has none of the null pointer.
abbrev pub held : ℕ → ℕ → ℕ
held p d = if p == 0 then 0 else if d == p then 1 else 0

-- The counts `g` are those of `f` and `n d` more of each `d`.
abbrev pub Takes : (ℕ → ℕ) → (ℕ → ℕ) → (ℕ → ℕ) → Type 0
Takes f g n = (d : ℕ) → g d ≡ u32 (f d + n d)

pub held_self : (p : ℕ) → p ≢ 0 → held p p ≡ 1
held_self p n = ground arith

pub held_ne : (p d : ℕ) → d ≢ p → held p d ≡ 0
held_ne p d n = ground arith

module _ (s : Counted) (v : IsValid s.table) where
  pub get_ref-Takes :
      (g n : ℕ → ℕ) (h : ℕ)
      → Takes s.ref g n
      → slot s.table h ≢ 0
      → let p = slot s.table h in
        (g' : ℕ → ℕ) × (get_ref (record s { ref = g }) h ≡ some (p, record s { ref = g' }))
        × Takes s.ref g' (λ d. n d + held p d)
  get_ref-Takes g n h t m = (
    update g p (u32 (g p + 1)),
    get_ref-slot (record s { ref = g }) v h m,
    λ d. elim (ℕ_discrete d p) [
      | yes e ↦
          subst (λ x. update g p (u32 (g p + 1)) x ≡ u32 (s.ref x + (n x + held p x))) (sym e)
            (update_self g p (u32 (g p + 1)) ∙ omega (arith, t p, held_self p m))
      | no ne ↦ update_ne g p (u32 (g p + 1)) d ne ∙ omega (arith, t d, held_ne p d ne)
    ],
  )
    where
      p : ℕ
      p = slot s.table h

  pub put_ref-Takes :
      (g n : ℕ → ℕ) (h : ℕ)
      → Takes s.ref g n
      → slot s.table h ≢ 0
      → let p = slot s.table h in
        n p ≢ 0
        → (g' : ℕ → ℕ) × (put_ref (record s { ref = g }) h ≡ some (pos 0, record s { ref = g' }))
          × Takes s.ref g' (λ d. n d - held p d)
  put_ref-Takes g n h t m has_one = (
    update g p (sub32 (g p) 1),
    ap (put_ref now) (sym (v.knows h m)) ∙ put_ref-handle now v p (slot-IsIn now v h m),
    λ d. elim (ℕ_discrete d p) [
      | yes e ↦
          subst (λ x. update g p (sub32 (g p) 1) x ≡ u32 (s.ref x + (n x - held p x))) (sym e)
            (update_self g p (sub32 (g p) 1) ∙ omega (arith, t p, held_self p m))
      | no ne ↦ update_ne g p (sub32 (g p) 1) d ne ∙ omega (arith, t d, held_ne p d ne)
    ],
  )
    where
      p : ℕ
      p = slot s.table h

      now : Counted
      now = record s { ref = g }
