-- ===== src/Resource/Placed.antt =====
-- A resource table by its slots: what `roce_resource_alloc` and `roce_resource_free` make of it.
use libroce.Base.{
  ℕ, ◌<◌, ◌≡◌, ◌≢◌, refl, inl, inr, ◌⊎◌, pos, ebusy, ◌==◌, leb, leb→le, false, Bool-cases,
  Option-cases, arith, length,
}
use libroce.Resource.{Resource, first_free, alloc, free, put}
use libroce.Resource.Slots.{
  slot, IsValid, first_free-some, get_or-set_self, get_or-set_ne, get_or-past, get_or-clear, clear,
}

module _ (r : Resource) (v : IsValid r) where
  nonzero : (p : ℕ) → p ≢ 0 → (p == 0) ≡ false
  nonzero p n = ground arith

  -- An object either gets a slot that was free, or the table is full.
  pub alloc-put :
      (p : ℕ)
      → p ≢ 0
      → ((i : ℕ) × (alloc r p ≡ (pos i, put r p i)) × (i < length r.addr) × (slot r i ≡ 0))
        ⊎ (alloc r p ≡ (ebusy, r))
  unfolding alloc
  alloc-put p n = elim (Option-cases (first_free r.size 0 r.addr)) [
    | inl e ↦ inr (rw (nonzero p n, e) refl)
    | inr (i, e) ↦
        let f = first_free-some r.size 0 i r.addr e in
        inl (i, rw (nonzero p n, e) refl, omega (arith, f.1, v.full), f.2)
  ]

  -- A slot that holds an object is within the array.
  pub slot-lt : (i : ℕ) → slot r i ≢ 0 → i < length r.addr
  slot-lt i n = elim (Bool-cases (leb (length r.addr) i)) [
    | inl past ↦ absurd (n (get_or-past r.addr i (leb→le (length r.addr) i past)))
    | inr h ↦ ground arith
  ]

  pub free-clear : (i : ℕ) → slot r i ≢ 0 → free r i ≡ (pos 0, clear r i)
  unfolding free
  free-clear i n = rw (within (slot-lt i n), nonzero (slot r i) n) refl
    where
      within : i < length r.addr → leb r.size i ≡ false
      within h = ground (arith, v.full)

  pub slot-put_self : (p i : ℕ) → i < length r.addr → slot (put r p i) i ≡ p
  slot-put_self p i h = get_or-set_self r.addr i p h

  pub slot-put_ne : (p i j : ℕ) → i ≢ j → slot (put r p i) j ≡ slot r j
  slot-put_ne p i j h = get_or-set_ne r.addr i j p h

  pub slot-clear_self : (i : ℕ) → slot (clear r i) i ≡ 0
  slot-clear_self i = get_or-clear r.addr i

  pub slot-clear_ne : (i j : ℕ) → i ≢ j → slot (clear r i) j ≡ slot r j
  slot-clear_ne i j h = get_or-set_ne r.addr i j 0 h
