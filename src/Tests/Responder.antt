-- ===== src/Tests/Responder.antt =====
-- A message of one packet for a work request of sixteen bytes, and a whole packet.
use Prim.{tt}
use libroce.Base.{
  ℕ, ◌+◌, ◌-◌, ◌^◌, ◌≡◌, ◌≢◌, refl, List, length, if◌then◌else◌, ◌==◌, pos, Option, ℤ, [], ◌∷◌,
  get_or, none, some, false, arith,
}
use mathlib.Core.Option
use libroce.Iov.{iov_len, Iov, Taken, empty, read, reverse_iovs}
use libroce.Iov.Reverse.{End, reverse_iovs-End}
use libroce.Word.{bswap64, bswap32, bswap16}
use libroce.Ib.Opcode
use libroce.Ib.Bth.{Bth, get_psn, get_opcode}
use libroce.Crc.{crc32, crc_table}
use libroce.Crc.Packet.{ip4, mask_bth}
use libroce.Port.{Port}
use libroce.Qp.Modify.{rts}
use libroce.Wr.{RecvWr}
use libroce.Responder.{Responder}
use libroce.Responder.Wire.{ip_from, bth_from}
use libroce.Responder.Decap.{Frame, masked, net_decap}
use libroce.Responder.Intact.{net_decap-Intact}
use libroce.Responder.Whole.{Intact}
use libroce.Responder.Reliable.{recv_rc}
use libroce.Responder.Order.{Ordered, recv_rc-Ordered}
use libroce.Responder.Run.{Arrival, InSequence, receive_all, receive_all-InSequence}
use libroce.Responder.Payload.{get_eth}
use libroce.Responder.Stuck.{Carries, AreWrites, AreRefused, write_only-refuses}
use libroce.Tests.Requester.{ctx, qp}
use libroce.Tests.Mr.{element}

-- 66 bytes with their checksum.
abbrev sealed : List ℕ → List ℕ
sealed icrc =
    0 ∷ 0 ∷ 1 ∷ 2 ∷ 3 ∷ 4 ∷ 5 ∷ 6 ∷ 7 ∷ 7 ∷ 7 ∷ 7 ∷ 7 ∷ 7 ∷ 8 ∷ 0 ∷ 0x45 ∷ 0 ∷ 0 ∷ 48 ∷ 0 ∷ 0 ∷ 0
    ∷ 0 ∷ 64 ∷ 17 ∷ 0 ∷ 0 ∷ 10 ∷ 0 ∷ 0 ∷ 1 ∷ 10 ∷ 0 ∷ 0 ∷ 2 ∷ 200 ∷ 1 ∷ 0x12 ∷ 0xb7 ∷ 0 ∷ 28 ∷ 0 ∷ 0
    ∷ 4 ∷ 0 ∷ 0xff ∷ 0xff ∷ 0 ∷ 0 ∷ 0 ∷ 2 ∷ 0 ∷ 0 ∷ 0 ∷ 100 ∷ 11 ∷ 22 ∷ 33 ∷ 44 ∷ icrc

abbrev packet : List ℕ
packet = sealed (167 ∷ 7 ∷ 105 ∷ 169 ∷ [])

abbrev mem : ℕ → ℕ
mem p = get_or packet (p - 1000) 0

abbrev first : Iov
first = record { base = 1000; len = 40 }

abbrev second : Iov
second = record { base = 1040; len = 24 }

abbrev ip_bytes : List ℕ
ip_bytes =
    0x45 ∷ 0 ∷ 0 ∷ 48 ∷ 0 ∷ 0 ∷ 0 ∷ 0 ∷ 64 ∷ 17 ∷ 0 ∷ 0 ∷ 10 ∷ 0 ∷ 0 ∷ 1 ∷ 10 ∷ 0 ∷ 0 ∷ 2 ∷ []

abbrev bth_bytes : List ℕ
bth_bytes = 4 ∷ 0 ∷ 0xff ∷ 0xff ∷ 0 ∷ 0 ∷ 0 ∷ 2 ∷ 0 ∷ 0 ∷ 0 ∷ 100 ∷ []

abbrev port : Port
port = record {
  attr = record {
    max_mtu = 4096;
    active_mtu = 1024;
    gid_tbl_len = 8;
    pkey_tbl_len = 1;
    max_msg_sz = 0;
  };
  vnet_hdr = 2;
  gids = [];
  mac = 1 ∷ 2 ∷ 3 ∷ 4 ∷ 5 ∷ 6 ∷ [];
}

frame : Frame
unfolding ip_from bth_from mask_bth
frame = record {
  ip = masked (ip4 (ip_from ip_bytes));
  bth = mask_bth (bth_from bth_bytes);
  iovs = empty ∷ record { base = 1056; len = 4 } ∷ [];
}

let_through : net_decap mem port (first ∷ second ∷ []) ≡ some (some frame)
unfolding net_decap frame bswap16 bswap32 crc32 crc_table
let_through = refl

net_decap-Intact_example : Intact mem port (first ∷ second ∷ []) frame
net_decap-Intact_example =
    net_decap-Intact mem port (first ∷ second ∷ []) frame (omega arith) (omega arith) let_through

-- The same packet with another byte.
refused_other :
    net_decap (λ p. if p == 1057 then 23 else mem p) port (first ∷ second ∷ []) ≡ some none
unfolding net_decap bswap16 bswap32 crc32 crc_table
refused_other = refl

reverse_iovs-End_example :
    (t : Taken) × (ps : List ℕ) × (reverse_iovs mem (first ∷ second ∷ []) 30 ≡ some t)
    × End mem (first ∷ second ∷ []) 30 t ps
reverse_iovs-End_example = reverse_iovs-End mem first (second ∷ []) 30 (omega arith) (omega arith)

abbrev recv_wr : RecvWr
recv_wr = record {
  address = 700;
  byte_len = 0;
  sge_idx = 0;
  sge_off = 0;
  wr_id = 8;
  sges = element ∷ [];
}

abbrev responder : Responder
responder = record {
  qp = qp;
  qp_state = rts;
  rq_psn = 0xffffff;
  posted = 700 ∷ [];
  wrs = recv_wr ∷ [];
  mem = mem;
  iova = 0;
  rkey = 0;
  dmalen = 0;
  writtenlen = 0;
  in_psn_nak = false;
  msn = 0;
}

-- A message of four bytes, which asks for an answer.
abbrev message : ℕ → Bth
message psn = record {
  opcode = 4;
  flags = 0;
  pkey = 0xffff;
  u32_1 = bswap32 2;
  u32_2 = bswap32 (2 ^ 31 + psn);
}

abbrev payload : List Iov
payload = record { base = 1056; len = 4 } ∷ []

is_request : (psn : ℕ) → get_opcode (message psn) ≢ Opcode.acknowledge
unfolding get_opcode
is_request psn = λ e. cc

recv_rc-Ordered_example :
    Ordered responder
      (get_psn (message 0xffffff))
      (recv_rc ctx responder payload (message 0xffffff))
recv_rc-Ordered_example =
    recv_rc-Ordered ctx responder payload (message 0xffffff) (is_request 0xffffff) refl refl
      (omega arith)

abbrev seen : ℤ × Responder → ℤ × ℕ × ℕ × ℕ × List ℕ
seen (ret, r) = (ret, r.rq_psn, length r.qp.completed, length r.qp.sent, read r.mem 100000 4)

-- The packet is taken, its bytes are in memory, and the work request has completed.
taken_once :
    Option.map seen (recv_rc ctx responder payload (message 0xffffff))
    ≡ some (pos 0, 0, 1, 1, 11 ∷ 22 ∷ 33 ∷ 44 ∷ [])
unfolding recv_rc bswap32 bswap16
taken_once = refl

abbrev arrivals : List Arrival
arrivals =
    record { iovs = payload; bth = message 5 }
    ∷ record { iovs = payload; bth = message 0xffffff }
    ∷ record { iovs = payload; bth = message 0xffffff }
    ∷ record { iovs = payload; bth = message 0 }
    ∷ []

receive_all-InSequence_example : InSequence responder.rq_psn (receive_all ctx responder arrivals)
receive_all-InSequence_example =
    receive_all-InSequence ctx responder arrivals
      (is_request 5, (is_request 0xffffff, (is_request 0xffffff, (is_request 0, tt)))) refl refl
      (omega arith)

-- The third is a repetition, and there is no work request for the last.
one_taken : (receive_all ctx responder arrivals).0 ≡ 0xffffff ∷ []
unfolding receive_all bswap32 bswap16
one_taken = refl

-- Twenty bytes at 2000: a header that names four bytes of the region, and the bytes.
abbrev write_bytes : List ℕ
write_bytes = 0 ∷ 0 ∷ 0 ∷ 0 ∷ 0 ∷ 0 ∷ 0 ∷ 0 ∷ 0 ∷ 0 ∷ 0 ∷ 6 ∷ 0 ∷ 0 ∷ 0 ∷ 4 ∷ 55 ∷ 66 ∷ 77 ∷ 88 ∷ []

abbrev target : Responder
target = record responder { mem = λ p. get_or write_bytes (p - 2000) 0 }

abbrev write : List Iov
write = record { base = 2000; len = 20 } ∷ []

abbrev write_only : ℕ → Bth
write_only psn = record (message psn) { opcode = 10 }

abbrev left_by : Option (ℤ × Responder) → Responder
left_by none = target
left_by (some (ret, r)) = r

after_write : Responder
unfolding recv_rc
after_write = left_by (recv_rc ctx target write (write_only 0xffffff))

ran : recv_rc ctx target write (write_only 0xffffff) ≡ some (pos 0, after_write)
unfolding recv_rc after_write bswap32 bswap16 bswap64
ran = refl

there : Carries target.mem write 4
unfolding get_eth iov_len
there = (_, _, refl, refl)

still_there : Carries after_write.mem write 4
unfolding get_eth iov_len after_write recv_rc bswap32 bswap16
still_there = (_, _, refl, refl)

-- Two more of them.
abbrev more_writes : List Arrival
more_writes =
    record { iovs = write; bth = write_only 0 } ∷ record { iovs = write; bth = write_only 0 } ∷ []

more-AreWrites : AreWrites after_write.mem after_write.rq_psn more_writes
unfolding after_write recv_rc bswap32 bswap16 bswap64
more-AreWrites = (refl, refl, (4, still_there), (refl, refl, (4, still_there), tt))

write_only-refuses_example : AreRefused ctx after_write more_writes
unfolding get_opcode get_psn bswap32 bswap16
write_only-refuses_example =
    write_only-refuses ctx target after_write write (write_only 0xffffff) 3 more_writes refl refl
      refl refl refl there (omega arith) ran more-AreWrites
