-- ===== src/Context/Chosen.antt =====
-- What a context that `roce_new_ctx` has made can rely on.
use libroce.Base.{
  ℕ, ◌≡◌, ◌≢◌, ◌==◌, ◌≤◌, refl, sym, ap, ◌∙◌, some, none, Option, Bool, true, false, ◌&&◌, ◌||◌,
  not, inl, inr, Bool-cases, ==_iff, ne→==, subst, arith, when_true, when_false, ◌⊎◌,
}
use libroce.Context.{
  CtxPara, roce_v2, is_set, mm_count, spin_count, is_valid_para, with_mm, with_spin, new_ctx,
}
use libroce.Context.Families.{
  HasCalls, IsComplete, SameMm, SameSpin, IsWhole, is_set_le, with_mm-MmChosen,
  with_spin-SpinChosen,
}

split : (a b : Bool) → (a && b) ≡ true → (a ≡ true) × (b ≡ true)
split true true e = (refl, refl)
split true false e = cc
split false b e = cc

one : (n : ℕ) → n ≤ 1 → not (n == 0) ≡ true → n ≡ 1
one n h e = ground arith

two : (n m : ℕ) → n ≤ 1 → m ≤ 1 → not (n == 0 || m == 0) ≡ true → (n ≡ 1) × (m ≡ 1)
two n m h k e = (ground arith, ground arith)

none_or : (n k : ℕ) → (n == 0 || n == k) ≡ true → (n ≡ 0) ⊎ (n ≡ k)
none_or n k e = ground arith

-- What the tests say.
record Passes (p : CtxPara) : Type 0 where
  pub calls : HasCalls p
  pub mm : (mm_count p ≡ 0) ⊎ (mm_count p ≡ 4)
  pub spin : (spin_count p ≡ 0) ⊎ (spin_count p ≡ 5)

passes : (p : CtxPara) → is_valid_para p ≡ true → Passes p
unfolding is_valid_para
passes p e =
    let (e, spin) = split _ _ e in
    let (e, mm) = split _ _ e in
    let (e, dma) = split _ _ e in
    let (e, cq) = split _ _ e in
    let (e, xmit) = split _ _ e in
    let (version, size) = split _ _ e in
    let (map, unmap) =
      two (is_set p.dma_map) (is_set p.dma_unmap) (is_set_le p.dma_map) (is_set_le p.dma_unmap)
        dma in
    record {
      calls = record {
        version = (==_iff p.version roce_v2).0 version;
        page_size = size;
        net_xmit = one (is_set p.net_xmit) (is_set_le p.net_xmit) xmit;
        cq_comp = one (is_set p.cq_comp) (is_set_le p.cq_comp) cq;
        dma_map = map;
        dma_unmap = unmap;
      };
      mm = none_or (mm_count p) 4 mm;
      spin = none_or (spin_count p) 5 spin;
    }

spin_count-with_mm : (p : CtxPara) → spin_count (with_mm p) ≡ spin_count p
unfolding with_mm spin_count
spin_count-with_mm p = elim (Bool-cases (is_set p.malloc == 0)) [
  | inl z ↦ ap spin_count (when_true (is_set p.malloc == 0) _ _ z)
  | inr z ↦ ap spin_count (when_false (is_set p.malloc == 0) _ _ z)
]

same_mm : (p q c : CtxPara) → SameMm p q → SameMm q c → SameMm p c
same_mm p q c a b = (b.0 ∙ a.0, b.1 ∙ a.1, b.2 ∙ a.2, b.3 ∙ a.3)

same_spin : (p q c : CtxPara) → SameSpin p q → SameSpin q c → SameSpin p c
same_spin p q c a b = (b.0 ∙ a.0, b.1 ∙ a.1, b.2 ∙ a.2, b.3 ∙ a.3, b.4 ∙ a.4)

-- Both, one behind the other.
chosen :
    (size : ℕ) (p : CtxPara)
    → size ≢ 0
    → Passes p
    → IsComplete (with_spin size (with_mm p)) × IsWhole p (with_spin size (with_mm p))
chosen size p real t =
    let m = with_mm-MmChosen p t.calls t.mm in
    let count = spin_count-with_mm p in
    let s =
      with_spin-SpinChosen size (with_mm p) real m.calls m.mm
        (subst (λ n. (n ≡ 0) ⊎ (n ≡ 5)) (sym count) t.spin) in
    (
      (s.calls, s.mm, s.spin),
      record {
        mm = elim m.whole [
          | inl same ↦ inl (same_mm p (with_mm p) (with_spin size (with_mm p)) same s.mm_same)
          | inr z ↦ inr z
        ];
        spin = elim s.whole [
          | inl same ↦ inl (same_spin p (with_mm p) (with_spin size (with_mm p)) m.spin_same same)
          | inr z ↦ inr (sym count ∙ z)
        ];
      },
    )

accepted : (p : CtxPara) → IsComplete p → is_valid_para p ≡ true
unfolding is_valid_para mm_count spin_count
accepted p h =
    rw
      (
        (==_iff p.version roce_v2).1 h.0.version,
        h.0.page_size,
        h.0.net_xmit,
        h.0.cq_comp,
        h.0.dma_map,
        h.0.dma_unmap,
        h.1.malloc,
        h.1.free,
        h.1.calloc,
        h.1.realloc,
        ne→== p.lock_size 0 h.2.lock_size,
        h.2.init,
        h.2.lock,
        h.2.trylock,
        h.2.unlock,
      )
      refl

untouched : (size : ℕ) (p : CtxPara) → IsComplete p → with_spin size (with_mm p) ≡ p
unfolding with_mm with_spin
untouched size p h =
    ap (with_spin size) (
      when_false (is_set p.malloc == 0) _ _
        (ne→== (is_set p.malloc) 0 (λ z. omega (arith, z, h.1.malloc))))
    ∙ when_false (p.lock_size == 0) _ _ (ne→== p.lock_size 0 h.2.lock_size)

-- For a lock that is not empty: a context that `roce_new_ctx` returns has the supported version, a
-- page size that is a power of two, and every function that the code calls, the memory functions
-- and the lock functions each the caller's as a whole, or none of them the caller's; and where
-- there is memory, parameters that have all of this are accepted as they are.
pub new_ctx-IsComplete :
    (size : ℕ) (memory : Bool) (p : CtxPara)
    → size ≢ 0
    → ((c : CtxPara) → new_ctx size memory p ≡ some c → IsComplete c × IsWhole p c)
      × (IsComplete p → new_ctx size true p ≡ some p)
unfolding new_ctx
new_ctx-IsComplete size memory p real = (
  (λ c e. elim (Bool-cases (is_valid_para p && memory)) [
    | inr bad ↦ clash c (sym (when_false (is_valid_para p && memory) _ _ bad) ∙ e)
    | inl good ↦
        subst (λ c. IsComplete c × IsWhole p c)
          (some_inj (sym (when_true (is_valid_para p && memory) _ _ good) ∙ e))
          (chosen size p real (passes p (split _ _ good).0))
  ]),
  λ h.
      when_true (is_valid_para p && true) _ _ (ap (λ b. b && true) (accepted p h))
      ∙ ap some (untouched size p h),
)
  where
    clash : (c : CtxPara) → ◌≡◌ {A = Option CtxPara} none (some c) → IsComplete c × IsWhole p c
    clash c r = cc

    some_inj : {a b : CtxPara} → ◌≡◌ {A = Option CtxPara} (some a) (some b) → a ≡ b
    some_inj e = cc
