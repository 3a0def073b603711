-- ===== src/Context/Families.antt =====
-- The two families of functions that `roce_new_ctx` takes from the caller or from a library.
use libroce.Base.{
  ℕ, ◌+◌, ◌≡◌, ◌≢◌, ◌==◌, ◌≤◌, refl, sym, true, inl, inr, ==_iff, ne→==, subst, arith, when_true,
  when_false, ◌⊎◌,
}
use libroce.Sge.{power_of_2}
use libroce.Context.{
  Function, null, given, libc, pthread_spin_init, pthread_spin_trylock, pthread_spin_unlock,
  CtxPara, roce_v2, is_set, is_nonzero, mm_count, spin_count, with_mm, with_spin,
}

-- The version, a page size that is a power of two, and the functions that the caller must give.
pub record HasCalls (c : CtxPara) : Type 0 where
  pub version : c.version ≡ roce_v2
  pub page_size : power_of_2 c.page_size ≡ true
  pub net_xmit : is_set c.net_xmit ≡ 1
  pub cq_comp : is_set c.cq_comp ≡ 1
  pub dma_map : is_set c.dma_map ≡ 1
  pub dma_unmap : is_set c.dma_unmap ≡ 1

pub record HasMm (c : CtxPara) : Type 0 where
  pub malloc : is_set c.malloc ≡ 1
  pub free : is_set c.free ≡ 1
  pub calloc : is_set c.calloc ≡ 1
  pub realloc : is_set c.realloc ≡ 1

pub record HasSpin (c : CtxPara) : Type 0 where
  pub lock_size : c.lock_size ≢ 0
  pub init : is_set c.init ≡ 1
  pub lock : is_set c.lock ≡ 1
  pub trylock : is_set c.trylock ≡ 1
  pub unlock : is_set c.unlock ≡ 1

-- Every function that the code calls is set.
abbrev pub IsComplete : CtxPara → Type 0
IsComplete c = HasCalls c × HasMm c × HasSpin c

-- The memory functions of `c` are those of `p`.
abbrev pub SameMm : CtxPara → CtxPara → Type 0
SameMm p c =
    (c.malloc ≡ p.malloc) × (c.free ≡ p.free) × (c.calloc ≡ p.calloc) × (c.realloc ≡ p.realloc)

-- The lock functions of `c` are those of `p`.
abbrev pub SameSpin : CtxPara → CtxPara → Type 0
SameSpin p c =
    (c.lock_size ≡ p.lock_size)
    × (c.init ≡ p.init)
    × (c.lock ≡ p.lock)
    × (c.trylock ≡ p.trylock)
    × (c.unlock ≡ p.unlock)

-- Two families of functions, each the caller's as a whole where the caller has one of its
-- functions.
pub record IsWhole (p c : CtxPara) : Type 0 where
  pub mm : SameMm p c ⊎ (mm_count p ≡ 0)
  pub spin : SameSpin p c ⊎ (spin_count p ≡ 0)

pub is_set_le : (f : Function) → is_set f ≤ 1
is_set_le null = omega arith
is_set_le given = omega arith
is_set_le libc = omega arith
is_set_le pthread_spin_init = omega arith
is_set_le pthread_spin_trylock = omega arith
is_set_le pthread_spin_unlock = omega arith

four :
    {a b c d : ℕ}
    → a ≤ 1
    → b ≤ 1
    → c ≤ 1
    → d ≤ 1
    → a + b + c + d ≡ 4
    → (a ≡ 1) × (b ≡ 1) × (c ≡ 1) × (d ≡ 1)
four h k l m e = (omega arith, omega arith, omega arith, omega arith)

-- What each of the two defaults leaves.
pub record MmChosen (p c : CtxPara) : Type 0 where
  pub calls : HasCalls c
  pub mm : HasMm c
  pub whole : SameMm p c ⊎ (mm_count p ≡ 0)
  pub spin_same : SameSpin p c

pub with_mm-MmChosen :
    (p : CtxPara) → HasCalls p → (mm_count p ≡ 0) ⊎ (mm_count p ≡ 4) → MmChosen p (with_mm p)
unfolding with_mm mm_count
with_mm-MmChosen p h (inl z) =
    subst (MmChosen p)
      (sym
        (when_true (is_set p.malloc == 0) _ _ ((==_iff (is_set p.malloc) 0).1 (omega (arith, z)))))
      (record {
        calls = record {
          version = h.version;
          page_size = h.page_size;
          net_xmit = h.net_xmit;
          cq_comp = h.cq_comp;
          dma_map = h.dma_map;
          dma_unmap = h.dma_unmap;
        };
        mm = record { malloc = refl; free = refl; calloc = refl; realloc = refl };
        whole = inr z;
        spin_same = (refl, refl, refl, refl, refl);
      })
with_mm-MmChosen p h (inr f) =
    let (m, r, c, l) =
      four (is_set_le p.malloc) (is_set_le p.free) (is_set_le p.calloc) (is_set_le p.realloc) f in
    subst (MmChosen p)
      (sym (
        when_false (is_set p.malloc == 0) _ _
          (ne→== (is_set p.malloc) 0 (λ z. omega (arith, m, z)))))
      (record {
        calls = h;
        mm = record { malloc = m; free = r; calloc = c; realloc = l };
        whole = inl (refl, refl, refl, refl);
        spin_same = (refl, refl, refl, refl, refl);
      })

five :
    {a b c d e : ℕ}
    → a ≤ 1
    → b ≤ 1
    → c ≤ 1
    → d ≤ 1
    → e ≤ 1
    → a + b + c + d + e ≡ 5
    → (a ≡ 1) × (b ≡ 1) × (c ≡ 1) × (d ≡ 1) × (e ≡ 1)
five h k l m n e = (omega arith, omega arith, omega arith, omega arith, omega arith)

pub record SpinChosen (p c : CtxPara) : Type 0 where
  pub calls : HasCalls c
  pub mm : HasMm c
  pub spin : HasSpin c
  pub whole : SameSpin p c ⊎ (spin_count p ≡ 0)
  pub mm_same : SameMm p c

one_or_zero : (n : ℕ) → is_nonzero n ≤ 1
one_or_zero n = ground arith

zero_size : (n : ℕ) → is_nonzero n ≡ 0 → n ≡ 0
zero_size n e = ground arith

real_size : (n : ℕ) → is_nonzero n ≡ 1 → n ≢ 0
real_size n e = ground arith

pub with_spin-SpinChosen :
    (size : ℕ) (p : CtxPara)
    → size ≢ 0
    → HasCalls p
    → HasMm p
    → (spin_count p ≡ 0) ⊎ (spin_count p ≡ 5)
    → SpinChosen p (with_spin size p)
unfolding with_spin spin_count
with_spin-SpinChosen size p real h m (inl z) =
    let unset : is_nonzero p.lock_size ≡ 0 = omega (arith, z) in
    subst (SpinChosen p)
      (sym
        (when_true (p.lock_size == 0) _ _ ((==_iff p.lock_size 0).1 (zero_size p.lock_size unset))))
      (record {
        calls = record {
          version = h.version;
          page_size = h.page_size;
          net_xmit = h.net_xmit;
          cq_comp = h.cq_comp;
          dma_map = h.dma_map;
          dma_unmap = h.dma_unmap;
        };
        mm = record { malloc = m.malloc; free = m.free; calloc = m.calloc; realloc = m.realloc };
        spin = record { lock_size = real; init = refl; lock = refl; trylock = refl; unlock = refl };
        whole = inr z;
        mm_same = (refl, refl, refl, refl);
      })
with_spin-SpinChosen size p real h m (inr f) =
    let (a, i, l, t, u) =
      five (one_or_zero p.lock_size) (is_set_le p.init) (is_set_le p.lock) (is_set_le p.trylock)
        (is_set_le p.unlock) f in
    let set = real_size p.lock_size a in
    subst (SpinChosen p) (sym (when_false (p.lock_size == 0) _ _ (ne→== p.lock_size 0 set)))
      (record {
        calls = h;
        mm = m;
        spin = record { lock_size = set; init = i; lock = l; trylock = t; unlock = u };
        whole = inl (refl, refl, refl, refl, refl);
        mm_same = (refl, refl, refl, refl);
      })
