-- ===== src/Resource/Contract.antt =====
-- The operations of a resource table as a client sees them: by what `get` returns before and after.
use libroce.Base.{
  ℕ, ◌≤◌, ◌<◌, ◌≡◌, ◌≢◌, refl, sym, ap, ◌∙◌, Option, some, pos, einval, ebusy, ◌==◌, leb, true,
  false, Bool-cases, Option-cases, arith, inl, inr, ◌⊎◌, leb→le, ==_iff,
}
use libroce.Resource.{Resource, first_free, alloc, alloc_at, get, free, put}
use libroce.Resource.Slots.{
  slot, IsValid, IsFresh, get_or-set_self, get_or-set_ne, put-IsValid, first_free-some,
  first_free-none, get-slot, get_or-past, clear, clear-IsValid, get_or-clear,
}

-- The table `r'` is `r` with the object `res` at the handle `i`, and valid.
pub record Updated (r : Resource) (i res : ℕ) (r' : Resource) : Type 0 where
  pub valid : IsValid r'
  pub here : get r' i ≡ some res
  pub others : (j : ℕ) → i ≢ j → get r' j ≡ get r j

put-Updated :
    (r : Resource) (res i : ℕ)
    → IsValid r
    → IsFresh r res
    → i < r.size
    → Updated r i res (put r res i)
put-Updated r res i v fresh h =
    let v' = put-IsValid r res i v fresh h in
    record {
      valid = v';
      here =
          get-slot (put r res i) i v'
          ∙ ap some (get_or-set_self r.addr i res (omega (arith, v.full)));
      others = λ j ne.
          get-slot (put r res i) j v'
          ∙ ap some (get_or-set_ne r.addr i j res ne)
          ∙ sym (get-slot r j v);
    }

clear-Updated : (r : Resource) (i : ℕ) → IsValid r → Updated r i 0 (clear r i)
clear-Updated r i v =
    let v' = clear-IsValid r i v in
    record {
      valid = v';
      here = get-slot (clear r i) i v' ∙ ap some (get_or-clear r.addr i);
      others = λ j ne.
          get-slot (clear r i) j v'
          ∙ ap some (get_or-set_ne r.addr i j 0 ne)
          ∙ sym (get-slot r j v);
    }

pub slot-get : (r : Resource) (i p : ℕ) → IsValid r → get r i ≡ some p → slot r i ≡ p
slot-get r i p v e =
    let same : ◌≡◌ {A = Option ℕ} (some (slot r i)) (some p) = sym (get-slot r i v) ∙ e in cc

-- `roce_resource_alloc` of an object that is not null and not in a valid table: either it returns
-- the first handle that is free, and the table then has the object there and is the same elsewhere;
-- or every handle is taken, and it returns -EBUSY and leaves the table.
pub alloc-Updated :
    (r : Resource) (res : ℕ)
    → IsValid r
    → IsFresh r res
    → res ≢ 0
    → ((i : ℕ) × (r' : Resource) × (alloc r res ≡ (pos i, r'))
        × (i < r.size)
        × (get r i ≡ some 0)
        × ((k : ℕ) → k < i → get r k ≢ some 0)
        × Updated r i res r')
      ⊎ ((alloc r res ≡ (ebusy, r)) × ((k : ℕ) → k < r.size → get r k ≢ some 0))
unfolding alloc
alloc-Updated r res v fresh n = elim (Option-cases (first_free r.size 0 r.addr)) [
  | inl e ↦ inr (
    rw (nonzero, e) refl,
    λ k h z. first_free-none r.size 0 r.addr e k (omega arith) (omega arith) (slot-get r k 0 v z),
  )
  | inr (i, e) ↦
      let f = first_free-some r.size 0 i r.addr e in
      inl (
        i,
        put r res i,
        rw (nonzero, e) refl,
        omega (arith, f.1),
        get-slot r i v ∙ ap some f.2,
        (λ k h z. f.3 k (omega arith) h (slot-get r k 0 v z)),
        put-Updated r res i v fresh (omega (arith, f.1)),
      )
]
  where
    nonzero : (res == 0) ≡ false
    nonzero = ground arith

-- `roce_resource_alloc_at` of an object that is not null and not in a valid table: at a handle out
-- of range it returns -EINVAL, at one that is taken -EBUSY, both with the table left; at one that
-- is free it returns the handle, and the table then has the object there and is the same elsewhere.
pub alloc_at-Updated :
    (r : Resource) (res index : ℕ)
    → IsValid r
    → IsFresh r res
    → res ≢ 0
    → (r.size ≤ index → alloc_at r res index ≡ (einval, r))
      × (index < r.size → get r index ≢ some 0 → alloc_at r res index ≡ (ebusy, r))
      × (index < r.size
          → get r index ≡ some 0
          → (r' : Resource) × (alloc_at r res index ≡ (pos index, r')) × Updated r index res r')
unfolding alloc_at
alloc_at-Updated r res index v fresh n = (
  (λ past. rw (nonzero, le→leb past) refl),
  (λ h taken. rw (nonzero, lt→leb h, occupied (λ z. taken (get-slot r index v ∙ ap some z))) refl),
  λ h z. (
    put r res index,
    rw (nonzero, lt→leb h, (==_iff (slot r index) 0).1 (slot-get r index 0 v z)) refl,
    put-Updated r res index v fresh h,
  ),
)
  where
    nonzero : (res == 0) ≡ false
    nonzero = ground arith

    le→leb : r.size ≤ index → leb r.size index ≡ true
    le→leb h = ground arith

    lt→leb : index < r.size → leb r.size index ≡ false
    lt→leb h = ground arith

    occupied : slot r index ≢ 0 → (slot r index == 0) ≡ false
    occupied h = ground arith

-- `roce_resource_free` on a valid table: at a handle that holds an object it returns 0, and the
-- table then has none there and is the same elsewhere; at any other it returns -EINVAL and leaves
-- the table.
pub free-Updated :
    (r : Resource) (index : ℕ)
    → IsValid r
    → (get r index ≢ some 0 → (r' : Resource) × (free r index ≡ (pos 0, r')) × Updated r index 0 r')
      × (get r index ≡ some 0 → free r index ≡ (einval, r))
unfolding free
free-Updated r index v = (
  (λ taken.
      let n : slot r index ≢ 0 = λ z. taken (get-slot r index v ∙ ap some z) in
      (clear r index, rw (within n, occupied n) refl, clear-Updated r index v)),
  λ z. elim (Bool-cases (leb r.size index)) [
    | inl past ↦ rw past refl
    | inr h ↦ rw (h, (==_iff (slot r index) 0).1 (slot-get r index 0 v z)) refl
  ],
)
  where
    within : slot r index ≢ 0 → leb r.size index ≡ false
    within n = elim (Bool-cases (leb r.size index)) [
      | inl past ↦
          absurd (n (get_or-past r.addr index (omega (arith, v.full, leb→le r.size index past))))
      | inr h ↦ h
    ]

    occupied : slot r index ≢ 0 → (slot r index == 0) ≡ false
    occupied h = ground arith
