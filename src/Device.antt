-- ===== src/Device.antt =====
-- dev.c, and of qp.c the two special queue pairs that it makes: the set-up of a device.
pub mod Tables
pub mod Made
use libroce.Base.{
  ℕ, zero, suc, ◌+◌, ◌==◌, ltb, leb, List, [], ◌∷◌, ℤ, pos, negsuc, einval, enomem, Bool, true,
  false, ◌&&◌, ◌||◌, not, if◌then◌else◌, update,
}
use libroce.Sge.{power_of_2}
use libroce.Resource.{Resource, init, alloc_at, free, max_general}
use libroce.Qp.{QpType, max}

-- The attributes that the calls of dev.c look at.
pub record DeviceAttr : Type 0 where
  pub device_cap_flags : ℕ
  pub max_mr_size : ℕ
  pub max_qp : ℕ
  pub max_sge : ℕ
  pub max_cq : ℕ
  pub max_mr : ℕ
  pub max_pd : ℕ
  pub max_mw : ℕ
  pub max_ah : ℕ
  pub max_srq : ℕ
  pub max_inline_data : ℕ
  pub max_pkeys : ℕ
  pub phys_port_cnt : ℕ

-- `roce_device`: the tables in the order of `roce_resource_type`, the two special queue pairs by
-- their addresses, and the types of queue pairs.
pub record Device : Type 0 where
  pub attr : DeviceAttr
  pub tables : List Resource
  pub smi : ℕ
  pub gsi : ℕ
  pub qp_type : ℕ → QpType

-- What the host does: the size of its pages, what `roce_spin_init` returns for the lock of a table
-- and whether `roce_calloc` gets its array, and what `roce_calloc` returns for the two queue pairs.
pub record Host : Type 0 where
  pub page_size : ℕ
  pub lock : ℕ → ℤ
  pub memory : ℕ → Bool
  pub smi : ℕ
  pub gsi : ℕ

-- The tests on the attributes, in their order.
unfoldable pub is_valid_attr : Host → DeviceAttr → Bool
unfolding power_of_2
is_valid_attr h a =
    not (ltb a.max_mr_size h.page_size || not (power_of_2 a.max_mr_size))
    && not (leb 64 a.max_sge)
    && not (leb 1024 a.max_inline_data)
    && not (a.max_pkeys == 0 || ltb 1 a.max_pkeys)
    && not (a.phys_port_cnt == 0 || ltb 1 a.phys_port_cnt)

-- `struct roce_dev_res` without the name.
pub record DevRes : Type 0 where
  pub size : ℕ
  pub min : ℕ
  pub max : ℕ

unfoldable pub resources : DeviceAttr → List DevRes
resources a =
    record { size = a.max_pd; min = 1; max = max_general }
    ∷ record { size = a.max_cq; min = 1; max = max_general }
    ∷ record { size = a.max_mr; min = 1; max = max_general }
    ∷ record { size = a.max_mw; min = 0; max = 0 }
    ∷ record { size = a.max_qp; min = 3; max = max_general }
    ∷ record { size = a.max_srq; min = 0; max = 0 }
    ∷ record { size = a.max_ah; min = 1; max = max_general }
    ∷ []

abbrev pub inited : ℤ × Resource → Bool × Resource
inited (pos zero, t) = (true, t)
inited (ret, t) = (false, t)

-- The body of the loop: whether it goes on, and the table that it leaves.
unfoldable pub init_table : Host → ℕ → DevRes → Resource → Bool × Resource
unfolding init
init_table h i w t =
    if ltb w.size w.min || ltb w.max w.size
    then (false, t)
    else if w.size == 0
    then (true, t)
    else inited (init t w.size (h.lock i) (h.memory i))

-- The loop from table `i` on; it stops at the first that fails.
abbrev pub table_then :
    Bool × Resource → Bool × List Resource → List Resource → Bool × List Resource
table_then (false, t) rest ts = (false, t ∷ ts)
table_then (true, t) (ok, ts') ts = (ok, t ∷ ts')

unfoldable pub init_tables : Host → ℕ → List DevRes → List Resource → Bool × List Resource
unfolding init_table
init_tables h i [] ts = (true, ts)
init_tables h i (w ∷ ws) [] = (true, [])
init_tables h i (w ∷ ws) (t ∷ ts) = table_then (init_table h i w t) (init_tables h (i + 1) ws ts) ts

-- What `roce_alloc_special_qps` leaves: its result, the table of queue pairs, the two addresses,
-- which stay where their memory has been freed, and whether both have been marked.
pub record Special : Type 0 where
  pub ret : ℤ
  pub table : Resource
  pub smi : ℕ
  pub gsi : ℕ
  pub marked : Bool

-- Behind `roce_resource_alloc_at` of the second; where that fails, the first is taken out again.
unfoldable pub gsi_entered : ℕ → ℕ → ℤ × Resource → Special
unfolding free
gsi_entered smi gsi (pos i, t) = record {
  ret = pos 0;
  table = t;
  smi = smi;
  gsi = gsi;
  marked = true;
}
gsi_entered smi gsi (negsuc e, t) = record {
  ret = negsuc e;
  table = (free t 0).1;
  smi = smi;
  gsi = gsi;
  marked = false;
}

-- From `roce_calloc` of the second on; where it gets no memory the result is the number of the
-- first, 0.
unfoldable pub alloc_gsi : ℕ → ℕ → Resource → Special
unfolding alloc_at free gsi_entered
alloc_gsi smi gsi t =
    let named = record t { handle = update t.handle gsi 1 } in
    if gsi == 0
    then record { ret = pos 0; table = (free t 0).1; smi = smi; gsi = 0; marked = false }
    else gsi_entered smi gsi (alloc_at named gsi 1)

-- Behind `roce_resource_alloc_at` of the first.
unfoldable pub smi_entered : Host → ℕ → ℤ × Resource → Special
unfolding alloc_gsi
smi_entered h gsi (pos i, t) = alloc_gsi h.smi h.gsi t
smi_entered h gsi (negsuc e, t) = record {
  ret = negsuc e;
  table = t;
  smi = h.smi;
  gsi = gsi;
  marked = false;
}

-- `roce_alloc_special_qps`, with `dev.gsi` as it was.
unfoldable pub alloc_special_qps : Host → ℕ → Resource → Special
unfolding alloc_at smi_entered
alloc_special_qps h gsi t =
    if h.smi == 0
    then record { ret = enomem; table = t; smi = 0; gsi = gsi; marked = false }
    else smi_entered h gsi (alloc_at t h.smi 0)

-- The table of queue pairs is the fifth.
abbrev pub qps : List Resource → Resource
qps (pd ∷ cq ∷ mr ∷ mw ∷ qp ∷ more) = qp
qps ts = record { size = 0; addr = []; handle = λ p. 0 }

abbrev pub set_qps : List Resource → Resource → List Resource
set_qps (pd ∷ cq ∷ mr ∷ mw ∷ qp ∷ more) t = pd ∷ cq ∷ mr ∷ mw ∷ t ∷ more
set_qps ts t = ts

-- `ROCE_DEVICE_BAD_PKEY_CNTR | ROCE_DEVICE_BAD_QKEY_CNTR`.
abbrev pub cap_flags : ℕ
cap_flags = 3

-- Behind the loop. The result of `roce_alloc_special_qps` is not looked at.
unfoldable pub device_made : Host → DeviceAttr → Device → List Resource → Device
unfolding alloc_special_qps
device_made h a d ts =
    let s = alloc_special_qps h d.gsi (qps ts) in
    record {
      attr = record a { device_cap_flags = cap_flags };
      tables = set_qps ts s.table;
      smi = s.smi;
      gsi = s.gsi;
      qp_type = if s.marked then update (update d.qp_type s.smi max) s.gsi max else d.qp_type;
    }

abbrev pub device_ended : Host → DeviceAttr → Device → Bool × List Resource → ℤ × Device
device_ended h a d (true, ts) = (pos 0, device_made h a d ts)
device_ended h a d (false, ts) = (enomem, record d { tables = ts })

-- `roce_init_device`. The arrays that `roce_destroy_all_resources` frees stay in the tables.
unfoldable pub init_device : Host → DeviceAttr → Device → ℤ × Device
unfolding is_valid_attr resources init_tables device_made
init_device h a d =
    if is_valid_attr h a
    then device_ended h a d (init_tables h 0 (resources a) d.tables)
    else (einval, d)
