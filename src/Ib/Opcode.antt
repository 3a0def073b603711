-- ===== src/Ib/Opcode.antt =====
-- include/spec/ib-spec.h: the operation codes of a packet, and their names for the log.
use Prim.Native.String.{String}
use libroce.Base.{
  ℕ, ◌≡◌, ◌↔◌, inl, inr, List, [], ◌∷◌, Option, none, some, ltb, ltb→lt, ltb→le, Bool-cases,
  if◌then◌else◌, length, get_elem?, get_elem?-none_iff, arith,
}

abbrev pub rc : ℕ
rc = 0x0

abbrev pub ud : ℕ
ud = 0x3

abbrev pub send_first : ℕ
send_first = 0x00

abbrev pub send_middle : ℕ
send_middle = 0x01

abbrev pub send_last : ℕ
send_last = 0x02

abbrev pub send_last_with_immediate : ℕ
send_last_with_immediate = 0x03

abbrev pub send_only : ℕ
send_only = 0x04

abbrev pub send_only_with_immediate : ℕ
send_only_with_immediate = 0x05

abbrev pub rdma_write_first : ℕ
rdma_write_first = 0x06

abbrev pub rdma_write_middle : ℕ
rdma_write_middle = 0x07

abbrev pub rdma_write_last : ℕ
rdma_write_last = 0x08

abbrev pub rdma_write_last_with_immediate : ℕ
rdma_write_last_with_immediate = 0x09

abbrev pub rdma_write_only : ℕ
rdma_write_only = 0x0a

abbrev pub rdma_write_only_with_immediate : ℕ
rdma_write_only_with_immediate = 0x0b

abbrev pub acknowledge : ℕ
acknowledge = 0x11

abbrev pub send_last_with_invalidate : ℕ
send_last_with_invalidate = 0x16

abbrev pub send_only_with_invalidate : ℕ
send_only_with_invalidate = 0x17

abbrev strs : List String
strs =
    "SEND-FIRST" ∷ "SEND-MIDDLE" ∷ "SEND-LAST" ∷ "SEND-LAST-WITH-IMMEDIATE" ∷ "SEND-ONLY"
    ∷ "SEND-ONLY-WITH-IMMEDIATE" ∷ "RDMA-WRITE-FIRST" ∷ "RDMA-WRITE-MIDDLE" ∷ "RDMA-WRITE-LAST"
    ∷ "RDMA-WRITE-LAST-WITH-IMMEDIATE" ∷ "RDMA-WRITE-ONLY" ∷ "RDMA-WRITE-ONLY-WITH-IMMEDIATE"
    ∷ "RDMA-READ-REQUEST" ∷ "RDMA-READ-RESPONSE-FIRST" ∷ "RDMA-READ-RESPONSE-MIDDLE"
    ∷ "RDMA-READ-RESPONSE-LAST" ∷ "RDMA-READ-RESPONSE-ONLY" ∷ "ACKNOWLEDGE" ∷ "ATOMIC-ACKNOWLEDGE"
    ∷ "COMPARE-SWAP" ∷ "FETCH-ADD" ∷ "RESYNC" ∷ "SEND-LAST-WITH-INVALIDATE"
    ∷ "SEND-ONLY-WITH-INVALIDATE" ∷ []

-- `none` is a read past the end of the table.
unfoldable pub opcode_str : ℕ → Option String
opcode_str opcode = if ltb (length strs) opcode then some "UNKNOWN" else get_elem? strs opcode

-- The name of an operation code is read past the end of the table at the code 24, and at no other.
pub opcode_str-none : (opcode : ℕ) → (opcode_str opcode ≡ none) ↔ (opcode ≡ 24)
unfolding opcode_str
opcode_str-none opcode = elim (Bool-cases (ltb 24 opcode)) [
  | inl past ↦ rw past ((λ e. cc), λ e. absurd (omega (arith, ltb→lt 24 opcode past)))
  | inr within ↦ rw within (
    (λ e. omega (arith, (get_elem?-none_iff strs opcode).0 e, ltb→le 24 opcode within)),
    λ e. (get_elem?-none_iff strs opcode).1 (omega arith),
  )
]
