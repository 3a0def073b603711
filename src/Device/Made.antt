-- ===== src/Device/Made.antt =====
-- What `roce_init_device` makes, and when.
use Prim.{tt}
use libroce.Base.{
  when_true, when_false, ℕ, zero, suc, ◌-◌, ◌≤◌, ◌<◌, ◌==◌, leb, ◌≡◌, ◌≢◌, refl, sym, ap, ◌∙◌,
  subst, List, [], ◌∷◌, length, ℤ, pos, Bool, true, false, ◌&&◌, arith, get_or, replicate, update,
  update_self, update_ne, Bool-cases, inl, inr,
}
use libroce.Resource.{Resource, alloc_at, write, put}
use libroce.Qp.{max}
use libroce.Device.{
  DeviceAttr, Device, Host, is_valid_attr, resources, init_tables, alloc_special_qps, smi_entered,
  alloc_gsi, gsi_entered, device_made, device_ended, init_device,
}
use libroce.Device.Tables.{
  are_made, IsEmpty, Fits, both_hold, rest_fails, init_tables-Fits, init_tables_fails,
}

-- The two that the host made for special queue pairs, with their numbers, and nothing else.
pub record HasSpecial (h : Host) (n : ℕ) (t : Resource) : Type 0 where
  pub size : t.size ≡ n
  pub addr : t.addr ≡ h.smi ∷ h.gsi ∷ replicate (n - 2) 0
  pub smi : t.handle h.smi ≡ 0
  pub gsi : t.handle h.gsi ≡ 1

-- A device with the attributes asked for.
pub record IsReady (h : Host) (a : DeviceAttr) (d : Device) : Type 0 where
  pub pd : Resource
  pub cq : Resource
  pub mr : Resource
  pub mw : Resource
  pub qp : Resource
  pub srq : Resource
  pub ah : Resource
  pub tables : d.tables ≡ pd ∷ cq ∷ mr ∷ mw ∷ qp ∷ srq ∷ ah ∷ []
  pub empty : IsEmpty a.max_pd pd × IsEmpty a.max_cq cq × IsEmpty a.max_mr mr × IsEmpty a.max_ah ah
  pub special : HasSpecial h a.max_qp qp
  pub attr : d.attr ≡ record a { device_cap_flags = 3 }
  pub smi : d.smi ≡ h.smi
  pub gsi : d.gsi ≡ h.gsi
  pub unused : (d.qp_type h.smi ≡ max) × (d.qp_type h.gsi ≡ max)

-- The table of queue pairs with the two in it.
abbrev entered : Host → Resource → List ℕ → Resource
entered h t rest = record t {
  addr = h.smi ∷ h.gsi ∷ rest;
  handle = write (update (write t.handle h.smi 0) h.gsi 1) h.gsi 1;
}

alloc_at_made :
    (t : Resource) (res index : ℕ)
    → res ≢ 0
    → index < t.size
    → get_or t.addr index 0 ≡ 0
    → alloc_at t res index ≡ (pos index, put t res index)
unfolding alloc_at
alloc_at_made t res index some_res within free = rw (nonzero, below, empty) refl
  where
    nonzero : (res == 0) ≡ false
    nonzero = ground arith

    below : leb t.size index ≡ false
    below = ground arith

    empty : (get_or t.addr index 0 == 0) ≡ true
    empty = ground arith

special_made :
    (h : Host) (gsi size : ℕ) (handle : ℕ → ℕ) (rest : List ℕ)
    → 2 ≤ size
    → h.smi ≢ 0
    → h.gsi ≢ 0
    → let t : Resource = record { size = size; addr = 0 ∷ 0 ∷ rest; handle = handle } in
      alloc_special_qps h gsi t
      ≡ record { ret = pos 0; table = entered h t rest; smi = h.smi; gsi = h.gsi; marked = true }
unfolding alloc_special_qps alloc_gsi gsi_entered
special_made h gsi size handle rest room some_smi some_gsi =
    when_false (h.smi == 0) _ _ (ground arith)
    ∙ ap (smi_entered h gsi) (alloc_at_made t h.smi 0 some_smi (omega arith) refl)
    ∙ when_false (h.gsi == 0) _ _ (ground arith)
    ∙ ap (gsi_entered h.smi h.gsi) (alloc_at_made named h.gsi 1 some_gsi (omega arith) refl)
  where
    t : Resource
    t = record { size = size; addr = 0 ∷ 0 ∷ rest; handle = handle }

    named : Resource
    named = record {
      size = size;
      addr = h.smi ∷ 0 ∷ rest;
      handle = update (write handle h.smi 0) h.gsi 1;
    }

entered-HasSpecial :
    (h : Host) (t : Resource) (n : ℕ)
    → h.smi ≢ h.gsi
    → t.size ≡ n
    → HasSpecial h n (entered h t (replicate (n - 2) 0))
entered-HasSpecial h t n differ e = record {
  size = e;
  addr = refl;
  smi = ground arith;
  gsi = ground arith;
}

-- With two more slots.
first_two : (n : ℕ) → 2 ≤ n → replicate {A = ℕ} n 0 ≡ 0 ∷ 0 ∷ replicate (n - 2) 0
first_two zero h = absurd (omega arith)
first_two (suc zero) h = absurd (omega arith)
first_two (suc (suc n)) h = ap (λ k. 0 ∷ 0 ∷ replicate k 0) (omega arith)

-- The table of queue pairs as the loop leaves it.
qps_made :
    (h : Host) (gsi : ℕ) (t : Resource) (n : ℕ)
    → 3 ≤ n
    → h.smi ≢ 0
    → h.gsi ≢ 0
    → IsEmpty n t
    → alloc_special_qps h gsi t ≡ record {
      ret = pos 0;
      table = entered h t (replicate (n - 2) 0);
      smi = h.smi;
      gsi = h.gsi;
      marked = true;
    }
qps_made h gsi t n room some_smi some_gsi (size, addr) =
    let full : t ≡ record t { addr = 0 ∷ 0 ∷ replicate (n - 2) 0 } =
      ap (λ l. record t { addr = l }) (addr ∙ first_two n (omega arith)) in
    ap (alloc_special_qps h gsi) full
    ∙ special_made h gsi t.size t.handle (replicate (n - 2) 0) (omega arith) some_smi some_gsi

module _ (h : Host) (a : DeviceAttr) (d : Device) (some_smi : h.smi ≢ 0) (some_gsi : h.gsi ≢ 0)
    (differ : h.smi ≢ h.gsi) where
  made-IsReady : (ts : List Resource) → Fits (resources a) ts → IsReady h a (device_made h a d ts)
  unfolding device_made resources
  made-IsReady (pd ∷ cq ∷ mr ∷ mw ∷ qp ∷ srq ∷ ah ∷ [])
        (
          (rpd, fpd),
          ((rcq, fcq), ((rmr, fmr), ((rmw, fmw), ((rqp, fqp), ((rsrq, fsrq), ((rah, fah), end)))))),
        ) =
      let made = qps_made h d.gsi qp a.max_qp rqp some_smi some_gsi (fqp (λ z. omega arith)) in
      rw made record {
        pd = pd;
        cq = cq;
        mr = mr;
        mw = mw;
        qp = entered h qp (replicate (a.max_qp - 2) 0);
        srq = srq;
        ah = ah;
        tables = refl;
        empty = (
          fpd (λ z. omega arith),
          fcq (λ z. omega arith),
          fmr (λ z. omega arith),
          fah (λ z. omega arith),
        );
        special = entered-HasSpecial h qp a.max_qp differ ((fqp (λ z. omega arith)).0);
        attr = refl;
        smi = refl;
        gsi = refl;
        unused = (
          update_ne (update d.qp_type h.smi max) h.gsi max h.smi differ
              ∙ update_self d.qp_type h.smi max,
          update_self (update d.qp_type h.smi max) h.gsi max,
        );
      }
  made-IsReady [] x = absurd x
  made-IsReady (pd ∷ []) (fpd, x) = absurd x
  made-IsReady (pd ∷ cq ∷ []) (fpd, (fcq, x)) = absurd x
  made-IsReady (pd ∷ cq ∷ mr ∷ []) (fpd, (fcq, (fmr, x))) = absurd x
  made-IsReady (pd ∷ cq ∷ mr ∷ mw ∷ []) (fpd, (fcq, (fmr, (fmw, x)))) = absurd x
  made-IsReady (pd ∷ cq ∷ mr ∷ mw ∷ qp ∷ []) (fpd, (fcq, (fmr, (fmw, (fqp, x))))) = absurd x
  made-IsReady (pd ∷ cq ∷ mr ∷ mw ∷ qp ∷ srq ∷ []) (fpd, (fcq, (fmr, (fmw, (fqp, (fsrq, x)))))) =
      absurd x
  made-IsReady (pd ∷ cq ∷ mr ∷ mw ∷ qp ∷ srq ∷ ah ∷ t ∷ ts)
        (fpd, (fcq, (fmr, (fmw, (fqp, (fsrq, (fah, x))))))) =
      absurd x

  bad_device :
      (x : Bool × List Resource)
      → x.0 ≡ false
      → ((device_ended h a d x).0 ≢ pos 0) × ((device_ended h a d x).1.attr ≡ d.attr)
  bad_device (true, ts) e = absurd cc
  bad_device (false, ts) e = ((λ k. cc), refl)

-- Whether the attributes are accepted and the host has what is asked for.
abbrev pub is_accepted : Host → DeviceAttr → Bool
is_accepted h a = is_valid_attr h a && are_made h 0 (resources a)

-- `roce_init_device` on a device with seven tables, where `roce_calloc` gets memory for both
-- special queue pairs. It returns 0 exactly where the attributes are accepted, the sizes are within
-- their bounds, and there are a lock and memory for each table of a size that is not 0. Then each
-- table of domains, completion queues, regions and address handles has the size asked for, and all
-- its slots free; that of the queue pairs has the two in the slots 0 and 1, which are their handles
-- and which are marked as unused, and its others free. Else the attributes stay what they were.
pub init_device-IsReady :
    (h : Host) (a : DeviceAttr) (d : Device)
    → length d.tables ≡ 7
    → h.smi ≢ 0
    → h.gsi ≢ 0
    → h.smi ≢ h.gsi
    → (is_accepted h a ≡ true → (d' : Device) × (init_device h a d ≡ (pos 0, d')) × IsReady h a d')
      × (is_accepted h a ≡ false
          → ((init_device h a d).0 ≢ pos 0) × ((init_device h a d).1.attr ≡ d.attr))
unfolding init_device resources
init_device-IsReady h a d seven some_smi some_gsi differ = (
  (λ e.
      let (valid, sized) = both_hold (is_valid_attr h a) (are_made h 0 (resources a)) e in
      let (ts, made, fits) =
        init_tables-Fits h 0 (resources a) d.tables (omega (arith, seven))
          (
            omega arith,
            (
              omega arith,
              (omega arith, (omega arith, (omega arith, (omega arith, (omega arith, tt))))),
            ),
          )
          sized in
      (
        device_made h a d ts,
        when_true (is_valid_attr h a) _ _ valid ∙ ap (device_ended h a d) made,
        made-IsReady h a d some_smi some_gsi differ ts fits,
      )),
  λ e. elim (Bool-cases (is_valid_attr h a)) [
    | inl valid ↦
        subst (λ (x : ℤ × Device). (x.0 ≢ pos 0) × ((x.1).attr ≡ d.attr))
          (sym (when_true (is_valid_attr h a) _ _ valid))
          (bad_device h a d some_smi some_gsi differ (init_tables h 0 (resources a) d.tables) (
            init_tables_fails h 0 (resources a) d.tables (omega (arith, seven))
              (rest_fails _ _ valid e)))
    | inr bad ↦
        subst (λ (x : ℤ × Device). (x.0 ≢ pos 0) × ((x.1).attr ≡ d.attr))
          (sym (when_false (is_valid_attr h a) _ _ bad)) ((λ k. cc), refl)
  ],
)
