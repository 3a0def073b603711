-- ===== src/Tests/Crc.antt =====
-- The checksum of a small packet.
use Prim.{tt}
use libroce.Base.{ℕ, ◌%◌, ◌≡◌, refl, List, [], ◌∷◌, arith, bit_xor, map, get_or}
use libroce.Iov.{Iov}
use libroce.Iov.Span.{span}
use libroce.Crc.{crc32, crc32_1, crc_table}
use libroce.Crc.Bitwise.{shifts, crc_table-shifts, crc32_1-shifts}
use libroce.Crc.Loops.{fold_bytes, crc32-span, Readable}

crc_table-shifts_example : get_or crc_table 255 0 ≡ shifts 8 255
crc_table-shifts_example = crc_table-shifts 255 (omega arith)

crc32_1-shifts_example : crc32_1 0xffffffff 0x31 ≡ shifts 8 (bit_xor 0xffffffff 0x31)
crc32_1-shifts_example = crc32_1-shifts 0xffffffff 0x31 (omega arith)

abbrev packet : List Iov
packet = record { base = 0; len = 0 } ∷ record { base = 5; len = 9 } ∷ []

packet-Readable : Readable packet
packet-Readable = ((λ n e. n refl), ((λ n. omega arith), tt))

abbrev mem : ℕ → ℕ
mem a = a % 256

crc32-span_example :
    crc32 mem 0xdebb20e3 packet
    ≡ fold_bytes (λ c b. shifts 8 (bit_xor c b)) 0xdebb20e3 (map mem (span packet))
crc32-span_example = crc32-span mem (λ a. omega arith) 0xdebb20e3 packet packet-Readable
