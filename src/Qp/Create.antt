-- ===== src/Qp/Create.antt =====
-- qp.c: `roce_create_qp`. `none` is a failed assertion.
use libroce.Base.{
  ℕ, ◌==◌, Option, none, some, ℤ, pos, zero, negsuc, einval, enotsup, Bool, true, false,
  if◌then◌else◌, bit_and, update, replicate, not, suc,
}
use libroce.Ib.Bth.{psn_mask}
use libroce.Counted.{Counted, enter}
use libroce.Pd.{Pds, get_pd, put_pd_asserted}
use libroce.Cq.{Cqs, get_cq, put_cq}
use libroce.Ah.{AhAttr}
use libroce.Wr.{has}
use libroce.Qp.{QpType, smi, gsi, rc, ud, max}
use libroce.Qp.Modify.{reset, QpCap, Limits, Qp, Qps, verify_qp_cap}

-- The arguments of `roce_create_qp`.
pub record Request : Type 0 where
  pub pd_handle : ℕ
  pub qp_type : QpType
  pub send_cq : ℕ
  pub recv_cq : ℕ
  pub cap : QpCap
  pub flags : ℕ
  pub qp_ctx : ℕ

-- What the call finds outside its arguments: the limits, `active_mtu` of the first port, `dev.gsi`,
-- what `roce_calloc` returns, and the two numbers of `random`.
pub record Found : Type 0 where
  pub limits : Limits
  pub active_mtu : ℕ
  pub gsi_qp : ℕ
  pub memory : ℕ
  pub random_rq : ℕ
  pub random_sq : ℕ

-- The tables that the call works on.
pub record Tables : Type 0 where
  pub pds : Pds
  pub cqs : Cqs
  pub qps : Qps

abbrev pub supported : QpType → Bool
supported gsi = true
supported rc = true
supported ud = true
supported _ = false

abbrev pub is_special : QpType → Bool
is_special gsi = true
is_special _ = false

abbrev pub is_unused : QpType → Bool
is_unused max = true
is_unused _ = false

-- The memory that `roce_calloc` returns.
abbrev pub blank_cap : QpCap
blank_cap = record {
  max_send_wr = 0;
  max_recv_wr = 0;
  max_send_sge = 0;
  max_recv_sge = 0;
  max_inline_data = 0;
}

abbrev pub blank_ah : AhAttr
blank_ah = record {
  gid = replicate 16 0;
  mac = replicate 6 0;
  flow_label = 0;
  sgid_index = 0;
  hop_limit = 0;
  traffic_class = 0;
  port_num = 0;
}

abbrev pub blank : Qp
blank = record {
  qp_type = smi;
  sq_sig_all = false;
  use_srq = false;
  pd = 0;
  scq = 0;
  rcq = 0;
  qp_ctx = 0;
  attr = record {
    qp_state = reset;
    rq_psn = 0;
    sq_psn = 0;
    path_mtu = 0;
    qkey = 0;
    dest_qp_num = 0;
    qp_access_flags = 0;
    cap = blank_cap;
    ah_attr = blank_ah;
    pkey_index = 0;
    max_rd_atomic = 0;
    max_dest_rd_atomic = 0;
    port_num = 0;
  };
  psn = 0;
  busy = false;
}

-- The fields that the call sets, its lists emptied.
unfoldable pub filled : Found → Request → ℕ → ℕ → ℕ → Qp → Qp
filled e r pd scq rcq old = record old {
  qp_type = r.qp_type;
  sq_sig_all = has r.flags 0x1;
  use_srq = has r.flags 0x2;
  pd = pd;
  scq = scq;
  rcq = rcq;
  qp_ctx = r.qp_ctx;
  attr = record old.attr {
    cap = r.cap;
    qp_state = reset;
    path_mtu = e.active_mtu;
    port_num = 1;
    rq_psn = bit_and e.random_rq psn_mask;
    sq_psn = bit_and e.random_sq psn_mask;
  };
  busy = false;
}

-- `ROCE_ASSERT(!roce_put_cq(ctx, cq))`, where a queue was found.
unfoldable pub put_cq_asserted : Cqs → ℕ → ℕ → Option Cqs
unfolding put_cq
put_cq_asserted s p h =
    if p == 0 then some s else elim (put_cq s h) [ some (pos zero, s') ↦ some s' | _ ↦ none ]

-- From the label `put_resource` on, with the domain found and the queues found or null.
unfoldable pub put_resource : Request → ℕ → ℕ → Tables → Option (ℤ × Tables)
unfolding put_pd_asserted put_cq_asserted
put_resource r scq rcq t = elim (put_pd_asserted t.pds r.pd_handle) [
  | none ↦ none
  | some pds ↦ elim (put_cq_asserted t.cqs scq r.send_cq) [
    | none ↦ none
    | some sent ↦ elim (put_cq_asserted sent rcq r.recv_cq) [
      | none ↦ none
      | some cqs ↦ some (einval, record t { pds = pds; cqs = cqs })
    ]
  ]
]

-- The queue pair at `p` with the handle `i` is filled in.
abbrev pub finish_qp : Found → Request → ℕ → ℕ → ℕ → Tables → ℕ → ℕ → Qp → ℤ × Tables
finish_qp e r pd scq rcq t i p old =
    (pos i, record t { qps = record t.qps { qp = update t.qps.qp p (filled e r pd scq rcq old) } })

-- What follows `roce_calloc` and `roce_resource_alloc` of a queue pair that is not the special one.
unfoldable pub allocated : Found → Request → ℕ → ℕ → ℕ → Tables → ℤ × Counted → Option (ℤ × Tables)
unfolding put_resource
allocated e r pd scq rcq t (negsuc n, c) = put_resource r scq rcq t
allocated e r pd scq rcq t (pos i, c) =
    some
      (finish_qp e r pd scq rcq (record t { qps = record t.qps { objects = c } }) i e.memory blank)

-- `dev.gsi` is null after a failed `roce_alloc_special_qps`; its handle is 1.
unfoldable pub special : Found → Request → ℕ → ℕ → ℕ → Tables → Option (ℤ × Tables)
unfolding put_resource
special e r pd scq rcq t =
    if e.gsi_qp == 0
    then none
    else if not (is_unused ((t.qps.qp e.gsi_qp).qp_type))
    then put_resource r scq rcq t
    else if t.qps.objects.table.handle e.gsi_qp == 1
    then some (finish_qp e r pd scq rcq t 1 e.gsi_qp (t.qps.qp e.gsi_qp))
    else none

-- The two ways to a queue pair, when the domain and the queue for sending have been found.
unfoldable pub entering : Found → Request → ℕ → ℕ → ℕ → Tables → Option (ℤ × Tables)
unfolding special allocated enter
entering e r pd scq rcq t =
    if is_special r.qp_type
    then special e r pd scq rcq t
    else allocated e r pd scq rcq t (enter t.qps.objects e.memory)

-- The queue for sending, then the queue for receiving, after which the first is tested again.
unfoldable pub with_queues : Found → Request → ℕ → Tables → Option (ℤ × Tables)
unfolding put_resource entering get_cq
with_queues e r pd t = elim (get_cq t.cqs r.send_cq) [
  | none ↦ none
  | some (zero, cqs) ↦ put_resource r 0 0 (record t { cqs = cqs })
  | some (suc scq, cqs) ↦ elim (get_cq cqs r.recv_cq) [
    | none ↦ none
    | some (rcq, cqs) ↦ entering e r pd (suc scq) rcq (record t { cqs = cqs })
  ]
]

-- `roce_create_qp`.
unfoldable pub create_qp : Found → Request → Tables → Option (ℤ × Tables)
unfolding verify_qp_cap get_pd with_queues
create_qp e r t =
    if not (supported r.qp_type) then some (enotsup, t) else elim (verify_qp_cap e.limits r.cap) [
      | pos zero ↦ elim (get_pd t.pds r.pd_handle) [
        | none ↦ none
        | some (zero, pds) ↦ some (einval, record t { pds = pds })
        | some (suc pd, pds) ↦ with_queues e r (suc pd) (record t { pds = pds })
      ]
      | _ ↦ some (einval, t)
    ]
