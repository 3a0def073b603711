-- ===== src/Crc.antt =====
-- crc.c: CRC-32 with the polynomial 0x04C11DB7, reflected, by a table of 256 entries.
mod Table
pub mod Bitwise
pub mod Loops
pub mod Packet
use libroce.Base.{
  ℕ, zero, suc, ◌+◌, ◌-◌, ◌/◌, ◌%◌, ◌^◌, List, [], ◌∷◌, bit_and, bit_xor, get_or, if◌then◌else◌,
  ◌==◌, Bool, ◌||◌,
}
use libroce.Word.{◌>>>◌}
use libroce.Iov.{Iov, read}
unfoldable pub use Table.{crc_table}

-- `roce_crc32_1`: one byte. `(int)crc ^ byte` is the same digits in 32 bits, of which eight count.
unfoldable pub crc32_1 : ℕ → ℕ → ℕ
crc32_1 crc byte = bit_xor (get_or crc_table (bit_and (bit_xor crc byte) 0xff) 0) (crc >>> 8)

-- `roce_crc32_2`, `roce_crc32_4` and `roce_crc32_8`: the first bytes of a buffer. A read past its
-- end stands as 0; `crc32_buf` makes none.
abbrev pub byte_at : List ℕ → ℕ → ℕ
byte_at buf i = get_or buf i 0

unfoldable pub crc32_2 : ℕ → ℕ → ℕ → ℕ
unfolding crc32_1
crc32_2 crc b0 b1 = crc32_1 (crc32_1 crc b0) b1

unfoldable pub crc32_4 : ℕ → ℕ → ℕ → ℕ → ℕ → ℕ
unfolding crc32_2
crc32_4 crc b0 b1 b2 b3 = crc32_2 (crc32_2 crc b0 b1) b2 b3

unfoldable pub crc32_8 : ℕ → ℕ → ℕ → ℕ → ℕ → ℕ → ℕ → ℕ → ℕ → ℕ
unfolding crc32_4
crc32_8 crc b0 b1 b2 b3 b4 b5 b6 b7 = crc32_4 (crc32_4 crc b0 b1 b2 b3) b4 b5 b6 b7

-- The three loops of `__roce_crc32`: by eight bytes, by four, and one by one. Each hands the rest
-- of the buffer to the next.
unfoldable pub loop_1 : ℕ → List ℕ → ℕ
loop_1 crc [] = crc
loop_1 crc (b ∷ buf) = loop_1 (crc32_1 crc b) buf

unfoldable pub loop_4 : ℕ → List ℕ → ℕ
unfolding loop_1 crc32_4
loop_4 crc (b0 ∷ b1 ∷ b2 ∷ b3 ∷ buf) = loop_4 (crc32_4 crc b0 b1 b2 b3) buf
loop_4 crc buf = loop_1 crc buf

unfoldable pub loop_8 : ℕ → List ℕ → ℕ
unfolding loop_4 crc32_8
loop_8 crc (b0 ∷ b1 ∷ b2 ∷ b3 ∷ b4 ∷ b5 ∷ b6 ∷ b7 ∷ buf) =
    loop_8 (crc32_8 crc b0 b1 b2 b3 b4 b5 b6 b7) buf
loop_8 crc buf = loop_4 crc buf

-- `__roce_crc32`.
unfoldable pub crc32_buf : ℕ → List ℕ → ℕ
unfolding loop_8
crc32_buf crc buf = loop_8 crc buf

-- `roce_crc32`: an entry that is null or empty is passed over.
unfoldable pub crc32 : (ℕ → ℕ) → ℕ → List Iov → ℕ
unfolding crc32_buf
crc32 mem crc [] = crc
crc32 mem crc (v ∷ vs) =
    crc32 mem (if v.base == 0 || v.len == 0 then crc else crc32_buf crc (read mem v.base v.len)) vs
