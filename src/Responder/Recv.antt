-- ===== src/Responder/Recv.antt =====
-- responder.c: `roce_recv_bth` and `roce_net_recv`, from a packet to its queue pair.
use libroce.Base.{
  ℕ, ◌==◌, ltb, List, Option, none, some, ℤ, pos, negsuc, eproto, eagain, eacces, enotsup, Bool,
  true, false, ◌&&◌, if◌then◌else◌, not, update, ◌>>=◌,
}
use libroce.Iov.{Iov, iov_len, reverse_iovs}
use libroce.Counted.{Counted, get_ref, put_ref}
use libroce.Ib.Bth.{Bth, get_destqp, get_pkey, get_qp_type, get_padcnt}
use libroce.Crc.Packet.{IpHeader, ip4, ip6, ip_bytes, ipv6_bytes}
use libroce.Port.{Port}
use libroce.Qp.{QpType, rc, ud, gsi, max, qp_type_to_ib}
use libroce.Qp.Modify.{QpState, rtr, rts, sqd, sqe}
use libroce.Requester.{Ctx}
use libroce.Responder.{Responder}
use libroce.Responder.Payload.{store_at}
use libroce.Responder.Decap.{net_decap}
use libroce.Responder.Reliable.{recv_rc}
use libroce.Responder.Datagram.{recv_ud}

-- The table of the queue pairs with their counts of references, and the queue pairs by address,
-- each with the shared objects as the call finds them.
pub record Stack : Type 0 where
  pub objects : Counted
  pub at : ℕ → Responder

-- `ROCE_PKEY`.
abbrev pub roce_pkey : ℕ
roce_pkey = 0xffff

abbrev pub can_receive : QpState → Bool
can_receive rtr = true
can_receive rts = true
can_receive sqd = true
can_receive sqe = true
can_receive state = false

abbrev pub is_ip4 : IpHeader → Bool
is_ip4 (ip4 h) = true
is_ip4 (ip6 h) = false

-- The switch on the type.
unfoldable pub recv_typed : Ctx → Responder → List Iov → Bth → ℕ → Bool → Option (ℤ × Responder)
unfolding recv_rc recv_ud
recv_typed c r iovs bth ip is_ipv4 = elim r.qp.qp_type [
  | rc ↦ recv_rc c r iovs bth
  | ud ↦ recv_ud c r iovs bth ip is_ipv4
  | gsi ↦ recv_ud c r iovs bth ip is_ipv4
  | _ ↦ none
]

-- The padding is taken off the end.
unfoldable pub unpadded : Ctx → Responder → List Iov → Bth → ℕ → Bool → Option (ℤ × Responder)
unfolding get_padcnt iov_len reverse_iovs recv_typed
unpadded c r iovs bth ip is_ipv4 =
    let padcnt = get_padcnt bth in
    if padcnt == 0 then recv_typed c r iovs bth ip is_ipv4 else do
      buf_len ← iov_len iovs
      t ← reverse_iovs r.mem iovs padcnt
      if ltb buf_len padcnt then some (eproto, r) else recv_typed c r t.iovs bth ip is_ipv4

-- The tests on a queue pair that holds a reference, in their order.
unfoldable pub admitted : Ctx → Responder → List Iov → Bth → ℕ → Bool → Option (ℤ × Responder)
unfolding get_pkey get_qp_type qp_type_to_ib unpadded
admitted c r iovs bth ip is_ipv4 =
    if not (can_receive r.qp_state)
    then some (eacces, r)
    else if not (get_pkey bth == roce_pkey)
    then some (enotsup, r)
    else do
      ib ← qp_type_to_ib r.qp.qp_type
      if get_qp_type bth == ib then unpadded c r iovs bth ip is_ipv4 else some (eproto, r)

abbrev pub is_unavailable : QpType → Bool
is_unavailable max = true
is_unavailable type = false

-- `roce_recv_bth`. The two early returns for special queue pairs keep the reference.
unfoldable pub recv_bth : Ctx → Stack → List Iov → Bth → ℕ → Bool → Option (ℤ × Stack)
unfolding get_destqp get_ref put_ref admitted
recv_bth c s iovs bth ip is_ipv4 = do
  let destqp = get_destqp bth
  (p, counted) ← get_ref s.objects destqp
  let held = record s { objects = counted }
  if p == 0
      then some (eproto, s)
      else if destqp == 0
      then some (enotsup, held)
      else if destqp == 1 && is_unavailable ((s.at p).qp.qp_type)
      then some (eagain, held)
      else if not (destqp == (s.at p).qp.handle)
      then none
      else do
        (ret, r) ← admitted c (s.at p) iovs bth ip is_ipv4
        (_, objects) ← put_ref counted destqp
        some (ret, record { objects = objects; at = update s.at p r })

-- The bytes of the header as `roce_net_recv` keeps them at `ip`, for the queue pairs to see.
abbrev pub header_bytes : IpHeader → List ℕ
header_bytes (ip4 h) = ip_bytes h
header_bytes (ip6 h) = ipv6_bytes h

abbrev pub with_header : Stack → ℕ → IpHeader → Stack
with_header s ip h = record s {
  at = λ p. record (s.at p) { mem = store_at ((s.at p).mem) ip (header_bytes h) };
}

-- What `roce_net_recv` returns: an error, or the length of the packet.
unfoldable pub received : List Iov → ℤ × Stack → Option (ℤ × Stack)
unfolding iov_len
received iovs (negsuc e, s) = some (negsuc e, s)
received iovs (pos n, s) = do len ← iov_len iovs; some (pos len, s)

-- `roce_net_recv` of a packet in memory `mem`, on the port.
unfoldable pub net_recv : Ctx → Port → (ℕ → ℕ) → ℕ → Stack → List Iov → Option (ℤ × Stack)
unfolding net_decap recv_bth received
net_recv c port mem ip s iovs = do
  got ← net_decap mem port iovs
  elim got [
    | none ↦ some (eproto, s)
    | some f ↦ do
      result ← recv_bth c (with_header s ip f.ip) f.iovs f.bth ip (is_ip4 f.ip)
      received iovs result
  ]
