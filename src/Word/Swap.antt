-- ===== src/Word/Swap.antt =====
-- The byte swaps undo themselves, and pass through `&` and `|`: setting bits of a big-endian field
-- by a swapped mask sets the bits of the number that the field stands for.
use native.Mathlib.Nat.{div-add-mod', mod-lt}
use libroce.Base.{
  ℕ, ◌+◌, ◌-◌, ◌*◌, ◌/◌, ◌%◌, ◌^◌, ◌<◌, bit_and, bit_or, ◌≡◌, sym, ap, ap₂, ◌∙◌, arith,
}
use libroce.Word.{bswap16, bswap32, bswap64}
use libroce.Word.Bits.{bit_and-split, bit_and-le, bit_or-lt, pow_pos, de_morgan}

pub bswap16-bswap16 : (x : ℕ) → x < 2 ^ 16 → bswap16 (bswap16 x) ≡ x
unfolding bswap16
bswap16-bswap16 x h = omega arith

pub bswap16-lt : (x : ℕ) → bswap16 x < 2 ^ 16
unfolding bswap16
bswap16-lt x = omega arith

pub bswap32-lt : (x : ℕ) → x < 2 ^ 32 → bswap32 x < 2 ^ 32
unfolding bswap32
bswap32-lt x h = omega (arith, bswap16-lt (x % 2 ^ 16), bswap16-lt (x / 2 ^ 16))

bswap32_halves :
    (x : ℕ)
    → (bswap32 x % 2 ^ 16 ≡ bswap16 (x / 2 ^ 16)) × (bswap32 x / 2 ^ 16 ≡ bswap16 (x % 2 ^ 16))
unfolding bswap32
bswap32_halves x = omega (arith, bswap16-lt (x % 2 ^ 16), bswap16-lt (x / 2 ^ 16))

pub bswap32-bswap32 : (x : ℕ) → x < 2 ^ 32 → bswap32 (bswap32 x) ≡ x
unfolding bswap32
bswap32-bswap32 x h = omega (
  arith,
  ap bswap16 (bswap32_halves x).0,
  ap bswap16 (bswap32_halves x).1,
  bswap16-bswap16 (x / 2 ^ 16) (omega arith),
  bswap16-bswap16 (x % 2 ^ 16) (omega arith),
)

bswap64_halves :
    (x : ℕ)
    → x < 2 ^ 64
    → (bswap64 x % 2 ^ 32 ≡ bswap32 (x / 2 ^ 32)) × (bswap64 x / 2 ^ 32 ≡ bswap32 (x % 2 ^ 32))
unfolding bswap64
bswap64_halves x h =
    omega (arith, bswap32-lt (x % 2 ^ 32) (omega arith), bswap32-lt (x / 2 ^ 32) (omega arith))

pub bswap64-bswap64 : (x : ℕ) → x < 2 ^ 64 → bswap64 (bswap64 x) ≡ x
unfolding bswap64
bswap64-bswap64 x h = omega (
  arith,
  ap bswap32 (bswap64_halves x h).0,
  ap bswap32 (bswap64_halves x h).1,
  bswap32-bswap32 (x / 2 ^ 32) (omega arith),
  bswap32-bswap32 (x % 2 ^ 32) (omega arith),
)

-- The two bytes of a word, as `bit_and-split` takes them.
module _ (x y : ℕ) where
  and_halves :
      (k : ℕ)
      → bit_and (x / 2 ^ k * 2 ^ k + x % 2 ^ k) (y / 2 ^ k * 2 ^ k + y % 2 ^ k)
        ≡ bit_and (x / 2 ^ k) (y / 2 ^ k) * 2 ^ k + bit_and (x % 2 ^ k) (y % 2 ^ k)
  and_halves k = bit_and-split k _ _ _ _ (mod-lt x (pow_pos k)) (mod-lt y (pow_pos k))

  pub bit_and_halves :
      (k : ℕ)
      → bit_and x y ≡ bit_and (x / 2 ^ k) (y / 2 ^ k) * 2 ^ k + bit_and (x % 2 ^ k) (y % 2 ^ k)
  bit_and_halves k =
      ap₂ bit_and (sym (div-add-mod' x (2 ^ k))) (sym (div-add-mod' y (2 ^ k))) ∙ and_halves k

pub bswap16-bit_and :
    (x y : ℕ) → x < 2 ^ 16 → y < 2 ^ 16 → bswap16 (bit_and x y) ≡ bit_and (bswap16 x) (bswap16 y)
unfolding bswap16
bswap16-bit_and x y hx hy = omega (
  arith,
  bit_and_halves x y 8,
  bit_and-split 8 (x % 256) (y % 256) (x / 256 % 256) (y / 256 % 256) (omega arith) (omega arith),
  bit_and-le 8 (x / 256) (y / 256) (omega arith) (omega arith),
  bit_and-le 8 (x % 256) (y % 256) (omega arith) (omega arith),
  ap₂ bit_and (high x hx) (high y hy),
)
  where
    high : (z : ℕ) → z < 2 ^ 16 → z / 256 % 256 ≡ z / 256
    high z hz = omega arith

pub bswap32-bit_and :
    (x y : ℕ) → x < 2 ^ 32 → y < 2 ^ 32 → bswap32 (bit_and x y) ≡ bit_and (bswap32 x) (bswap32 y)
unfolding bswap32
bswap32-bit_and x y hx hy = omega (
  arith,
  bit_and_halves x y 16,
  bit_and-le 16 (x % 2 ^ 16) (y % 2 ^ 16) (omega arith) (omega arith),
  ap bswap16 low,
  ap bswap16 high,
  bswap16-bit_and (x % 2 ^ 16) (y % 2 ^ 16) (omega arith) (omega arith),
  bswap16-bit_and (x / 2 ^ 16) (y / 2 ^ 16) (omega arith) (omega arith),
  bit_and_halves (bswap32 x) (bswap32 y) 16,
  ap₂ bit_and (bswap32_halves x).0 (bswap32_halves y).0,
  ap₂ bit_and (bswap32_halves x).1 (bswap32_halves y).1,
)
  where
    low : bit_and x y % 2 ^ 16 ≡ bit_and (x % 2 ^ 16) (y % 2 ^ 16)
    low = omega (
      arith,
      bit_and_halves x y 16,
      bit_and-le 16 (x % 2 ^ 16) (y % 2 ^ 16) (omega arith) (omega arith),
    )

    high : bit_and x y / 2 ^ 16 ≡ bit_and (x / 2 ^ 16) (y / 2 ^ 16)
    high = omega (
      arith,
      bit_and_halves x y 16,
      bit_and-le 16 (x % 2 ^ 16) (y % 2 ^ 16) (omega arith) (omega arith),
    )

pub bswap16-complement : (x : ℕ) → x < 2 ^ 16 → bswap16 (2 ^ 16 - 1 - x) ≡ 2 ^ 16 - 1 - bswap16 x
unfolding bswap16
bswap16-complement x h = omega arith

pub bswap32-complement : (x : ℕ) → x < 2 ^ 32 → bswap32 (2 ^ 32 - 1 - x) ≡ 2 ^ 32 - 1 - bswap32 x
unfolding bswap32
bswap32-complement x h = omega (
  arith,
  ap bswap16 low,
  ap bswap16 high,
  bswap16-complement (x % 2 ^ 16) (omega arith),
  bswap16-complement (x / 2 ^ 16) (omega arith),
  bswap16-lt (x % 2 ^ 16),
  bswap16-lt (x / 2 ^ 16),
)
  where
    low : (2 ^ 32 - 1 - x) % 2 ^ 16 ≡ 2 ^ 16 - 1 - x % 2 ^ 16
    low = omega arith

    high : (2 ^ 32 - 1 - x) / 2 ^ 16 ≡ 2 ^ 16 - 1 - x / 2 ^ 16
    high = omega arith

-- The same for `|`, by De Morgan's law.
pub bswap32-bit_or :
    (x y : ℕ) → x < 2 ^ 32 → y < 2 ^ 32 → bswap32 (bit_or x y) ≡ bit_or (bswap32 x) (bswap32 y)
bswap32-bit_or x y hx hy = omega (
  arith,
  ap bswap32 flipped,
  bswap32-complement (bit_or x y) (bit_or-lt 32 x y hx hy),
  bswap32-lt (bit_or x y) (bit_or-lt 32 x y hx hy),
  bswap32-bit_and (2 ^ 32 - 1 - x) (2 ^ 32 - 1 - y) (omega arith) (omega arith),
  ap₂ bit_and (bswap32-complement x hx) (bswap32-complement y hy),
  de_morgan 32 (bswap32 x) (bswap32 y) (bswap32-lt x hx) (bswap32-lt y hy),
)
  where
    flipped : 2 ^ 32 - 1 - bit_or x y ≡ bit_and (2 ^ 32 - 1 - x) (2 ^ 32 - 1 - y)
    flipped = omega (arith, de_morgan 32 x y hx hy)
