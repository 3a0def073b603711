-- ===== src/Tests/Qp.antt =====
-- A queue pair with packets on their way, asked to change its port, its MTU and its sequence
-- number; and one that is made.
use libroce.Base.{
  ℕ, ℤ, negsuc, Option, none, ◌≡◌, zero, suc, ◌≢◌, ◌==◌, ◌+◌, ◌^◌, some, pos, if◌then◌else◌,
  replicate, refl, [], ◌∷◌, true, false, arith,
}
use libroce.Ah.{AhAttr}
use libroce.Port.{valid_mtu}
use libroce.Resource.Slots.{slot, IsValid}
use libroce.Counted.{Counted}
use libroce.Qp.{rc, max}
use libroce.Qp.Modify.{QpAttr, QpCap, Limits, Qp, rts, modify, verify_qp_cap}
use libroce.Qp.Create.{Request, Found, Tables, blank, create_qp}
use libroce.Qp.Created.{IsReady, Ended}
use libroce.Qp.Ending.{create_qp-Ended}
use libroce.Qp.Kept.{IsKept, Keeps, modify-Keeps}

abbrev limits : Limits
limits = record {
  max_qp_wr = 64;
  max_sge = 4;
  max_inline_data = 128;
  max_mtus = 4096 ∷ [];
  gids = replicate 8 (0 ∷ []);
}

abbrev ah : AhAttr
ah = record {
  gid = [];
  mac = [];
  flow_label = 0;
  sgid_index = 0;
  hop_limit = 64;
  traffic_class = 0;
  port_num = 1;
}

abbrev cap : QpCap
cap = record {
  max_send_wr = 8;
  max_recv_wr = 8;
  max_send_sge = 1;
  max_recv_sge = 1;
  max_inline_data = 0;
}

abbrev attr : ℕ → ℕ → QpAttr
attr psn mtu = record {
  qp_state = rts;
  rq_psn = 0;
  sq_psn = psn;
  path_mtu = mtu;
  qkey = 0;
  dest_qp_num = 7;
  qp_access_flags = 0;
  cap = cap;
  ah_attr = ah;
  pkey_index = 0;
  max_rd_atomic = 0;
  max_dest_rd_atomic = 0;
  port_num = 1;
}

abbrev qp : Qp
qp = record {
  qp_type = rc;
  sq_sig_all = false;
  use_srq = false;
  pd = 9;
  scq = 5;
  rcq = 5;
  qp_ctx = 0;
  attr = attr 5 1024;
  psn = 9;
  busy = true;
}

qp-IsKept : IsKept limits qp qp
unfolding verify_qp_cap valid_mtu
qp-IsKept = record {
  pkey_index = omega arith;
  port_num = omega arith;
  path_mtu = refl;
  cap = refl;
  busy = refl;
  fixed = λ b. (refl, refl);
}

-- The port (0x20), the MTU (0x100) and `sq_psn` (0x10000).
modify-Keeps_example : Keeps limits (attr 77 2048) qp (modify limits (attr 77 2048) 0x10120 qp)
modify-Keeps_example = modify-Keeps limits (attr 77 2048) 0x10120 qp refl qp-IsKept

abbrev counted_one : ℕ → Counted
counted_one p = record { table = record { size = 1; addr = p ∷ []; handle = λ q. 0 }; ref = λ q. 0 }

-- A domain at 9, a queue at 5 and the special queue pair at 3.
abbrev pub tables : Tables
tables = record {
  pds = record { objects = counted_one 9; pd_ctx = λ q. 0 };
  cqs = record { objects = counted_one 5; cqe = λ q. 16; comp_vector = λ q. 0; ctx = λ q. 0 };
  qps = record {
    objects = record {
      table = record { size = 3; addr = 4 ∷ 3 ∷ 0 ∷ []; handle = λ q. if q == 3 then 1 else 0 };
      ref = λ q. 0;
    };
    qp = λ q. record blank { qp_type = max };
  };
}

abbrev pub found : Found
found = record {
  limits = limits;
  active_mtu = 1024;
  gsi_qp = 3;
  memory = 8;
  random_rq = 77;
  random_sq = 2 ^ 30 + 5;
}

abbrev pub request : Request
request = record {
  pd_handle = 0;
  qp_type = rc;
  send_cq = 0;
  recv_cq = 0;
  cap = cap;
  flags = 1;
  qp_ctx = 0;
}

pub one-IsValid : (p : ℕ) → IsValid (counted_one p).table
one-IsValid p = record { full = refl; knows = knows }
  where
    knows : (i : ℕ) → slot (counted_one p).table i ≢ 0 → 0 ≡ i
    knows zero n = refl
    knows (suc i) n = absurd (n refl)

found-IsReady : IsReady found tables
unfolding valid_mtu
found-IsReady = record {
  pds = one-IsValid 9;
  cqs = one-IsValid 5;
  pd_words = λ d. omega arith;
  cq_words = λ d. omega arith;
  gsi_qp = λ z. omega (arith, z);
  gsi_handle = refl;
  gsi_pkey = omega arith;
  active_mtu = refl;
}

create_qp-Ended_example : Ended found request tables (create_qp found request tables)
create_qp-Ended_example = create_qp-Ended found request tables found-IsReady

abbrev handle_of : Option (ℤ × Tables) → ℤ
handle_of (some (i, t)) = i
handle_of none = negsuc 0

created : handle_of (create_qp found request tables) ≡ pos 2
unfolding create_qp
created = refl
