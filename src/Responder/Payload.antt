-- ===== src/Responder/Payload.antt =====
-- responder.c: `roce_get_eth` and `roce_recv_payload`, which copies a packet of a message to the
-- memory of a work request for receiving.
use libroce.Base.{
  ℕ, zero, suc, ◌+◌, ◌-◌, ◌==◌, ltb, List, [], ◌∷◌, Option, none, some, ℤ, pos, negsuc, eagain,
  efault, eacces, Bool, true, false, if◌then◌else◌, update, get_elem?, ◌>>=◌,
}
use libroce.Word.{u32}
use libroce.Iov.{Iov, iov_len, advance}
use libroce.Ib.Immdt.{Immdt}
use libroce.Sge.{Sge, sge_len, sge_advance, sge_pages}
use libroce.Mr.Map.{map_sge}
use libroce.Wr.{RecvWr, success}
use libroce.Requester.{Ctx}
use libroce.Responder.{Responder, find_wr, set_wr, pop_recv_wr, free_recv_wr, recv_cq_comp}

-- `roce_get_eth`: the bytes of a header and the list behind it, or neither where the packet is
-- short.
unfoldable pub get_eth : (ℕ → ℕ) → List Iov → ℕ → Option (Option (List ℕ × List Iov))
unfolding iov_len advance
get_eth mem iovs size = do
  buf_len ← iov_len iovs
  t ← advance mem iovs size
  some (if ltb buf_len size then none else some (t.bytes, t.iovs))

-- `memcpy` to an address; a null buffer takes nothing.
unfoldable pub store : (ℕ → ℕ) → ℕ → List ℕ → ℕ → ℕ
store mem base [] = mem
store mem base (b ∷ bs) = store (update mem base b) (base + 1) bs

abbrev pub store_at : (ℕ → ℕ) → ℕ → List ℕ → ℕ → ℕ
store_at mem base bs = if base == 0 then mem else store mem base bs

-- The entry at an index of the array that `roce_mr_map_sge` wrote to; a later call writes over an
-- earlier one. `none` is an entry that was not written.
unfoldable pub entry : List (ℕ × List Iov) → ℕ → Option Iov
entry [] i = none
entry ((from, vs) ∷ written) i = elim (entry written i) [
  | some v ↦ some v
  | none ↦ if ltb i from then none else get_elem? vs (i - from)
]

-- The loop that copies the packet to the entries, `n` of them from `i` on: memory, and what is left
-- of the packet. The packet is not in the memory that is written.
unfoldable pub place :
    List (ℕ × List Iov) → ℕ → ℕ → (ℕ → ℕ) → List Iov → Option ((ℕ → ℕ) × List Iov)
unfolding entry advance store
place written i zero mem iovs = some (mem, iovs)
place written i (suc n) mem iovs = do
  dst ← entry written i
  t ← advance mem iovs dst.len
  place written (i + 1) n (store_at mem dst.base t.bytes) t.iovs

-- The mapping of elements, the assertion on its count, and the loop: an error, or memory.
pub data Placed : Type 0 where
  denied : Placed
  placed : (ℕ → ℕ) → Placed

unfoldable pub copied :
    Ctx → Responder → List Sge → List Iov → List (ℕ × List Iov) → ℤ → Option Placed
unfolding sge_pages place
copied c r sges iovs written (negsuc n) = some denied
copied c r sges iovs written (pos n) = do
  pages ← sge_pages sges c.page_size
  (mem, _) ← if n == pages then place written 0 n r.mem iovs else none
  some (placed mem)

unfoldable pub map_and_place : Ctx → Responder → List Sge → Bool → ℕ → List Iov → Option Placed
unfolding map_sge copied
map_and_place c r sges local access iovs = do
  (ret, written, _) ← map_sge c.dma_map r.qp.mrs r.qp.pd r.qp.qp_type sges local access false
  copied c r sges iovs written ret

-- Behind the copy: the end of the work request, where it completes.
unfoldable pub payload_ended : RecvWr → Bool × Responder → Option (ℤ × Responder)
unfolding free_recv_wr
payload_ended w (false, r) = some (pos 0, r)
payload_ended w (true, r) = do freed ← free_recv_wr r w; some (pos 0, record freed { iova = 0 })

unfoldable pub payload_done : Responder → RecvWr → ℕ → Option Immdt → ℕ → Option (ℤ × Responder)
unfolding set_wr recv_cq_comp payload_ended
payload_done r w buf_len eth opcode =
    let w' = record w { byte_len = u32 (w.byte_len + buf_len) } in
    let counted = record r { wrs = set_wr w' r.wrs } in
    payload_ended w' (recv_cq_comp counted opcode w'.wr_id w'.byte_len eth success)

-- Behind the mapping.
unfoldable pub recv_placed :
    Responder → RecvWr → ℕ → Option Immdt → ℕ → Placed → Option (ℤ × Responder)
unfolding payload_done
recv_placed r w buf_len eth opcode denied = some (eacces, r)
recv_placed r w buf_len eth opcode (placed mem) =
    payload_done (record r { mem = mem }) w buf_len eth opcode

-- With the work request long enough: its next elements, and the copy.
unfoldable pub recv_next :
    Ctx → Responder → RecvWr → List Iov → ℕ → Option Immdt → ℕ → Option (ℤ × Responder)
unfolding sge_advance set_wr map_and_place recv_placed
recv_next c r w iovs buf_len eth opcode = do
  picked ← sge_advance w.sges buf_len w.sge_idx w.sge_off
  let w' = record w { sge_idx = w.sge_idx + picked.passed; sge_off = picked.off }
  let moved = record r { wrs = set_wr w' r.wrs }
  p ← map_and_place c moved picked.dst true 1 iovs
  recv_placed moved w' buf_len eth opcode p

unfoldable pub recv_into :
    Ctx → Responder → RecvWr → List Iov → ℕ → Option Immdt → ℕ → Option (ℤ × Responder)
unfolding sge_len recv_next
recv_into c r w iovs buf_len eth opcode = do
  room ← sge_len w.sges w.sge_idx w.sge_off
  if ltb room buf_len then some (efault, r) else recv_next c r w iovs buf_len eth opcode

-- With the work request at `p`.
unfoldable pub recv_popped :
    Ctx → Responder → ℕ → List Iov → ℕ → Option Immdt → ℕ → Option (ℤ × Responder)
unfolding find_wr recv_into
recv_popped c r p iovs buf_len eth opcode = do
  w ← find_wr p r.wrs
  recv_into c r w iovs buf_len eth opcode

-- `roce_recv_payload`.
unfoldable pub recv_payload :
    Ctx → Responder → List Iov → Option Immdt → Bool → ℕ → Option (ℤ × Responder)
unfolding iov_len pop_recv_wr recv_popped
recv_payload c r iovs eth inprocess opcode = do
  buf_len ← iov_len iovs
  let (p, r') = pop_recv_wr r inprocess
  if p == 0 then some (eagain, r') else recv_popped c r' p iovs buf_len eth opcode
