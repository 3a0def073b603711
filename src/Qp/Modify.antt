-- ===== src/Qp/Modify.antt =====
-- qp.c: the attributes of a queue pair, `roce_verify_qp_cap`, `roce_modify_qp` and `roce_query_qp`.
-- `none` is a failed assertion, a read out of bounds or a null pointer followed, which a handle of
-- no queue pair leads to: `&qp->attr` is taken before any test.
use libroce.Base.{
  ℕ, ◌-◌, ◌==◌, ltb, leb, List, Option, none, some, ℤ, pos, zero, einval, ebusy, enotsup, Bool,
  true, false, ◌||◌, not, if◌then◌else◌, get_elem?, update, bit_and,
}
use libroce.Resource.{get}
use libroce.Counted.{Counted, get_ref, put_ref}
use libroce.Port.{valid_mtu, max_ports, max_pkey, gid_tbl_len}
use libroce.Netpkt.Eth.{gid_is_ipv4}
use libroce.Ah.{AhAttr}
use libroce.Qp.{QpType}
use libroce.Wr.{has}

-- `roce_qp_state`.
pub data QpState : Type 0 where
  reset init rtr rts sqd sqe err state_max : QpState

-- `roce_qp_cap`.
pub record QpCap : Type 0 where
  pub max_send_wr : ℕ
  pub max_recv_wr : ℕ
  pub max_send_sge : ℕ
  pub max_recv_sge : ℕ
  pub max_inline_data : ℕ

-- `roce_qp_attr`, the fields that the code sets.
pub record QpAttr : Type 0 where
  pub qp_state : QpState
  pub rq_psn : ℕ
  pub sq_psn : ℕ
  pub path_mtu : ℕ
  pub qkey : ℕ
  pub dest_qp_num : ℕ
  pub qp_access_flags : ℕ
  pub cap : QpCap
  pub ah_attr : AhAttr
  pub pkey_index : ℕ
  pub max_rd_atomic : ℕ
  pub max_dest_rd_atomic : ℕ
  pub port_num : ℕ

-- What the calls read of the context: the device's limits, `max_mtu` of each port, and the
-- identifiers of the first.
pub record Limits : Type 0 where
  pub max_qp_wr : ℕ
  pub max_sge : ℕ
  pub max_inline_data : ℕ
  pub max_mtus : List ℕ
  pub gids : List (List ℕ)

-- A queue pair as the calls of qp.c on attributes see it; `psn` is `req.psn`, and `busy` says
-- whether packets wait or are on their way. Its domain and completion queues are addresses.
pub record Qp : Type 0 where
  pub qp_type : QpType
  pub sq_sig_all : Bool
  pub use_srq : Bool
  pub pd : ℕ
  pub scq : ℕ
  pub rcq : ℕ
  pub qp_ctx : ℕ
  pub attr : QpAttr
  pub psn : ℕ
  pub busy : Bool

-- `roce_verify_qp_cap`.
unfoldable pub verify_qp_cap : Limits → QpCap → ℤ
verify_qp_cap l cap =
    if cap.max_send_wr == 0 || ltb l.max_qp_wr cap.max_send_wr
    then einval
    else if cap.max_recv_wr == 0 || ltb l.max_qp_wr cap.max_recv_wr
    then einval
    else if cap.max_send_sge == 0 || ltb l.max_sge cap.max_send_sge
    then einval
    else if cap.max_recv_sge == 0 || ltb l.max_sge cap.max_recv_sge
    then einval
    else if ltb l.max_inline_data cap.max_inline_data
    then einval
    else pos 0

-- Where a call stands: at an assertion or a bad read, returned early, or going on.
pub data Progress : Type 0 where
  failed : Progress
  returned : ℤ → Qp → Progress
  going : Qp → Progress

-- One `if (attr_mask & flag)` behind what came before.
abbrev pub when : ℕ → ℕ → (Qp → Progress) → Progress → Progress
when mask flag f failed = failed
when mask flag f (returned ret q) = returned ret q
when mask flag f (going q) = if has mask flag then f q else going q

abbrev pub set_attr : (QpAttr → QpAttr) → Qp → Progress
set_attr f q = going (record q { attr = f q.attr })

unfoldable pub modify_state : QpAttr → Qp → Progress
modify_state a = set_attr (λ old. record old { qp_state = a.qp_state })

unfoldable pub modify_access : QpAttr → Qp → Progress
modify_access a = set_attr (λ old. record old { qp_access_flags = a.qp_access_flags })

unfoldable pub modify_pkey_index : QpAttr → Qp → Progress
modify_pkey_index a q =
    if leb max_pkey a.pkey_index
    then returned einval q
    else set_attr (λ old. record old { pkey_index = a.pkey_index }) q

unfoldable pub modify_port : QpAttr → Qp → Progress
modify_port a q =
    if ltb max_ports a.port_num
    then returned einval q
    else set_attr (λ old. record old { port_num = a.port_num }) q

abbrev pub same : Bool → Bool → Bool
same true b = b
same false b = not b

-- `roce_modify_qp_ah`.
unfoldable pub modify_qp_ah : Limits → AhAttr → Qp → Progress
unfolding gid_is_ipv4
modify_qp_ah l ah q =
    if leb gid_tbl_len ah.sgid_index
    then returned einval q
    else elim (get_elem? l.gids ah.sgid_index) [
      | none ↦ failed
      | some sgid ↦
          if same (gid_is_ipv4 sgid) (gid_is_ipv4 ah.gid)
          then set_attr (λ old. record old { ah_attr = ah }) q
          else returned einval q
    ]

unfoldable pub modify_qkey : QpAttr → Qp → Progress
modify_qkey a = set_attr (λ old. record old { qkey = a.qkey })

-- `max_mtu` of the port numbered in the caller's attributes, which only ROCE_QP_PORT has tested.
unfoldable pub modify_path_mtu : Limits → QpAttr → Qp → Progress
unfolding valid_mtu
modify_path_mtu l a q =
    if not (valid_mtu a.path_mtu)
    then returned einval q
    else if a.port_num == 0
    then failed
    else elim (get_elem? l.max_mtus (a.port_num - 1)) [
      | none ↦ failed
      | some max_mtu ↦
          if ltb max_mtu a.path_mtu
          then returned einval q
          else set_attr (λ old. record old { path_mtu = a.path_mtu }) q
    ]

unfoldable pub modify_sq_psn : QpAttr → Qp → Progress
modify_sq_psn a q =
    if q.busy
    then returned ebusy q
    else going (record q { attr = record q.attr { sq_psn = a.sq_psn }; psn = a.sq_psn })

unfoldable pub modify_rq_psn : QpAttr → Qp → Progress
modify_rq_psn a = set_attr (λ old. record old { rq_psn = a.rq_psn })

unfoldable pub modify_rd_atomic : QpAttr → Qp → Progress
modify_rd_atomic a = set_attr (λ old. record old { max_rd_atomic = a.max_rd_atomic })

unfoldable pub modify_dest_rd_atomic : QpAttr → Qp → Progress
modify_dest_rd_atomic a = set_attr (λ old. record old { max_dest_rd_atomic = a.max_dest_rd_atomic })

unfoldable pub modify_cap : Limits → QpAttr → Qp → Progress
unfolding verify_qp_cap
modify_cap l a q = elim (verify_qp_cap l a.cap) [
  | pos zero ↦ set_attr (λ old. record old { cap = a.cap }) q
  | ret ↦ returned ret q
]

unfoldable pub modify_dest : QpAttr → Qp → Progress
modify_dest a = set_attr (λ old. record old { dest_qp_num = a.dest_qp_num })

-- `unsupported_qp_attr`.
abbrev pub unsupported : ℕ
unsupported = 0x44000

-- `roce_modify_qp` on the queue pair found.
unfoldable pub modify : Limits → QpAttr → ℕ → Qp → Progress
unfolding modify_state modify_access modify_pkey_index modify_port modify_qp_ah modify_qkey
    modify_path_mtu modify_sq_psn modify_rq_psn modify_rd_atomic modify_dest_rd_atomic modify_cap
    modify_dest
modify l a mask q =
    if not (bit_and mask unsupported == 0)
    then returned enotsup q
    else let p = when mask 0x1 (modify_state a) (going q) in
      let p = when mask 0x8 (modify_access a) p in
      let p = when mask 0x10 (modify_pkey_index a) p in
      let p = when mask 0x20 (modify_port a) p in
      let p = when mask 0x80 (modify_qp_ah l a.ah_attr) p in
      let p = when mask 0x40 (modify_qkey a) p in
      let p = when mask 0x100 (modify_path_mtu l a) p in
      let p = when mask 0x10000 (modify_sq_psn a) p in
      let p = when mask 0x1000 (modify_rq_psn a) p in
      let p = when mask 0x2000 (modify_rd_atomic a) p in
      let p = when mask 0x20000 (modify_dest_rd_atomic a) p in
      let p = when mask 0x80000 (modify_cap l a) p in when mask 0x100000 (modify_dest a) p

-- The queue pairs by address.
pub record Qps : Type 0 where
  pub objects : Counted
  pub qp : ℕ → Qp

-- `roce_modify_qp`; the reference that it takes stays.
unfoldable pub modify_qp : Limits → Qps → ℕ → QpAttr → ℕ → Option (ℤ × Qps)
unfolding get_ref modify
modify_qp l s h a mask = elim (get_ref s.objects h) [
  | none ↦ none
  | some (p, c) ↦ if p == 0 then none else elim (modify l a mask (s.qp p)) [
    | failed ↦ none
    | returned ret q ↦ some (ret, record { objects = c; qp = update s.qp p q })
    | going q ↦ some (pos 0, record { objects = c; qp = update s.qp p q })
  ]
]

-- `roce_query_qp`: what it returns, and the attributes where that is 0; the reference stays.
unfoldable pub query_qp : Qps → ℕ → ℕ → Option (ℤ × Option QpAttr × Qps)
unfolding get_ref
query_qp s h mask = elim (get_ref s.objects h) [
  | none ↦ none
  | some (p, c) ↦
      if p == 0
      then none
      else if not (bit_and mask unsupported == 0)
      then some (enotsup, none, record s { objects = c })
      else some (pos 0, some ((s.qp p).attr), record s { objects = c })
]

-- `roce_get_qp_type` and `roce_qp_ctx`, which take no reference; the second returns the pointer
-- where it returns 0.
unfoldable pub qp_type_of : Qps → ℕ → Option QpType
unfolding get
qp_type_of s h = elim (get s.objects.table h) [
  | none ↦ none
  | some p ↦ if p == 0 then none else some ((s.qp p).qp_type)
]

unfoldable pub qp_ctx_of : Qps → ℕ → Option (ℤ × Option ℕ)
unfolding get
qp_ctx_of s h = elim (get s.objects.table h) [
  | none ↦ none
  | some p ↦ if p == 0 then some (einval, none) else some (pos 0, some ((s.qp p).qp_ctx))
]

-- `roce_put_qp`.
unfoldable pub put_qp : Qps → ℕ → Option (ℤ × Qps)
unfolding put_ref
put_qp s h = elim (put_ref s.objects h) [
  | none ↦ none
  | some (ret, c) ↦ some (ret, record s { objects = c })
]
