-- ===== src/Post.antt =====
-- qp.c: work requests from their allocation to a queue pair's queues. `none` is a failed assertion.
-- The reference of the queue pair that each call takes, and never puts, is not part of these
-- functions.
use libroce.Base.{
  ℕ, zero, ◌+◌, ◌==◌, ltb, [], ◌∷◌, ◌++◌, replicate, Option, none, some, ℤ, pos, negsuc, einval,
  enomem, eacces, true, false, if◌then◌else◌, ◌>>=◌,
}
use libroce.Word.{u8, sub32}
use libroce.Sge.{Sge}
use libroce.Ah.{Ahs}
use libroce.Pd.{Pds}
use libroce.Mr.{Mrs}
use libroce.Mr.Life.{get_mrs}
use libroce.Qp.{rc, ud, gsi}
use libroce.Wr.{RecvWr, SendWr, send, send_wr_is_inline}
use libroce.Requester.{Ctx, Requester, Outcome}
use libroce.Requester.Queue.{request_rc}
use libroce.Requester.Datagram.{Datagram, request_ud}
use libroce.Responder.{Responder, free_recv_wr}

-- What `roce_calloc` returns: zeros at an address.
abbrev pub blank_sge : Sge
blank_sge = record { addr = 0; length = 0; lkey = 0 }

abbrev pub blank_recv_wr : ℕ → ℕ → RecvWr
blank_recv_wr p num_sge = record {
  address = p;
  byte_len = 0;
  sge_idx = 0;
  sge_off = 0;
  wr_id = 0;
  sges = replicate num_sge blank_sge;
}

-- `roce_alloc_recv_wr`, with the device's `max_sge` and what `roce_calloc` returns.
unfoldable pub alloc_recv_wr : ℕ → ℕ → ℕ → ℤ × Option RecvWr
alloc_recv_wr max_sge memory num_sge =
    if ltb max_sge num_sge
    then (einval, none)
    else if memory == 0
    then (enomem, none)
    else (pos 0, some (blank_recv_wr memory num_sge))

-- `roce_alloc_send_wr`; the elements stand behind the other fields, at `p + size`.
abbrev pub blank_send_wr : ℕ → ℕ → ℕ → SendWr
blank_send_wr size p num_sge = record {
  address = p;
  sge_address = p + size;
  error = 0;
  mapped = false;
  wr_id = 0;
  opcode = send;
  send_flags = 0;
  imm_data = 0;
  remote_addr = 0;
  rkey = 0;
  remote_qpn = 0;
  remote_qkey = 0;
  ah = 0;
  sges = replicate num_sge blank_sge;
}

unfoldable pub alloc_send_wr : ℕ → ℕ → ℕ → ℕ → ℤ × Option SendWr
alloc_send_wr max_sge size memory num_sge =
    if ltb max_sge num_sge
    then (einval, none)
    else if memory == 0
    then (enomem, none)
    else (pos 0, some (blank_send_wr size memory num_sge))

-- Behind `roce_get_mrs` in `roce_post_recv`; where that fails, the work request is freed.
unfoldable pub recv_posted : Responder → RecvWr → ℤ × Responder → Option (ℤ × Responder)
unfolding free_recv_wr
recv_posted r w (pos zero, taken) =
    some (pos 0, record taken { posted = r.posted ++ w.address ∷ []; wrs = r.wrs ++ w ∷ [] })
recv_posted r w (ret, taken) = do freed ← free_recv_wr taken w; some (eacces, freed)

abbrev pub with_regions : Requester → ℤ × Pds × Mrs → ℤ × Requester
with_regions s (ret, pds, mrs) = (ret, record s { pds = pds; mrs = mrs })

-- `roce_post_recv`.
unfoldable pub post_recv : Responder → RecvWr → Option (ℤ × Responder)
unfolding get_mrs recv_posted
post_recv r w = do
  got ← get_mrs r.qp.pds r.qp.mrs w.sges
  let (ret, qp) = with_regions r.qp got
  recv_posted r w (ret, record r { qp = qp })

-- What `roce_get_mrs` returns, in the eight bits of `error`.
abbrev pub error_of : ℤ → ℕ
error_of (pos n) = u8 n
error_of (negsuc n) = u8 (sub32 0 (n + 1))

-- The loop of `roce_post_send` that is run once: the references that a work request which is not
-- inline needs.
abbrev pub send_taken : SendWr → ℤ × Requester → SendWr × Requester
send_taken w (ret, s) =
    let error = error_of ret in
    if error == 0
    then (record w { error = 0; mapped = true }, s)
    else (record w { error = error }, s)

unfoldable pub take_mrs : Requester → SendWr → Option (SendWr × Requester)
unfolding send_wr_is_inline get_mrs
take_mrs s w =
    if send_wr_is_inline w
    then some (w, s)
    else do got ← get_mrs s.pds s.mrs w.sges; some (send_taken w (with_regions s got))

-- How the call ends, with the address handles.
pub data Posted : Type 0 where
  failed endless : Posted
  done : Requester → Ahs → Posted

abbrev pub from_rc : Ahs → Outcome → Posted
from_rc ahs Outcome.failed = failed
from_rc ahs Outcome.endless = endless
from_rc ahs (Outcome.done s) = done s ahs

abbrev pub from_ud : Option Datagram → Posted
from_ud none = failed
from_ud (some d) = done d.requester d.ahs

-- The switch on the type.
unfoldable pub send_posted : ℕ → Ctx → Ahs → Option (SendWr × Requester) → Posted
unfolding request_rc request_ud
send_posted fuel c ahs none = failed
send_posted fuel c ahs (some (w, s)) = elim s.qp_type [
  | rc ↦ from_rc ahs (request_rc fuel c s w)
  | gsi ↦ from_ud (request_ud c s ahs w)
  | ud ↦ from_ud (request_ud c s ahs w)
  | _ ↦ failed
]

-- `roce_post_send`, which always returns 0.
unfoldable pub post_send : ℕ → Ctx → Requester → Ahs → SendWr → Posted
unfolding take_mrs send_posted
post_send fuel c s ahs w = send_posted fuel c ahs (take_mrs s w)
