-- ===== src/Word.antt =====
-- C's unsigned words as native numbers: casts, shifts, complement, and the byte swap by which
-- endian.h's `htobeN` and `beNtoh` work on a little-endian host.
pub mod Bits
pub mod Xor
pub mod Swap
pub mod Field
use libroce.Base.{ℕ, ◌+◌, ◌-◌, ◌*◌, ◌/◌, ◌%◌, ◌^◌}

abbrev pub u8 : ℕ → ℕ
u8 n = n % 2 ^ 8

abbrev pub u16 : ℕ → ℕ
u16 n = n % 2 ^ 16

abbrev pub u32 : ℕ → ℕ
u32 n = n % 2 ^ 32

abbrev pub u64 : ℕ → ℕ
u64 n = n % 2 ^ 64

infixl 75 ◌<<<◌ ◌>>>◌
abbrev pub ◌<<<◌ : ℕ → ℕ → ℕ
x <<< k = x * 2 ^ k

abbrev pub ◌>>>◌ : ℕ → ℕ → ℕ
x >>> k = x / 2 ^ k

-- `~x` at 32 bits.
abbrev pub not32 : ℕ → ℕ
not32 x = 2 ^ 32 - 1 - x % 2 ^ 32

-- `a - b` at 32 and 64 bits: subtraction on ℕ stops at 0, so the modulus is added first.
abbrev pub sub32 : ℕ → ℕ → ℕ
sub32 a b = (a + 2 ^ 32 - b % 2 ^ 32) % 2 ^ 32

abbrev pub sub64 : ℕ → ℕ → ℕ
sub64 a b = (a + 2 ^ 64 - b % 2 ^ 64) % 2 ^ 64

unfoldable pub bswap16 : ℕ → ℕ
bswap16 x = x % 256 * 256 + x / 256 % 256

unfoldable pub bswap32 : ℕ → ℕ
bswap32 x = bswap16 (x % 2 ^ 16) * 2 ^ 16 + bswap16 (x / 2 ^ 16)

unfoldable pub bswap64 : ℕ → ℕ
bswap64 x = bswap32 (x % 2 ^ 32) * 2 ^ 32 + bswap32 (x / 2 ^ 32)
