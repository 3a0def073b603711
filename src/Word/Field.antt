-- ===== src/Word/Field.antt =====
-- The masks of the headers as arithmetic: what `&`, `|` and `& ~` with a field's mask make of a
-- number, at any place and width.
use libroce.Base.{ℕ, ◌+◌, ◌-◌, ◌*◌, ◌/◌, ◌%◌, ◌^◌, ◌<◌, bit_and, bit_or, ◌≡◌, ap, ◌∙◌, arith}
use libroce.Word.{not32}
use libroce.Word.Bits.{
  bit_and-field, bit_and-complement, bit_or-add-bit_and, bit_and_comm, bit_and-disjoint,
}

-- The mask of `w` digits above `s` others.
abbrev pub field : ℕ → ℕ → ℕ
field s w = (2 ^ w - 1) * 2 ^ s

-- `x & mask` and `mask & x`, shifted down, is the field.
pub masked : (s w x : ℕ) → bit_and (field s w) x ≡ x / 2 ^ s % 2 ^ w * 2 ^ s
masked s w x = bit_and_comm (field s w) x ∙ bit_and-field s w x

-- `x & ~mask` takes the field away.
pub clear-field :
    (s w x : ℕ)
    → field s w < 2 ^ 32
    → x < 2 ^ 32
    → bit_and x (not32 (field s w)) + x / 2 ^ s % 2 ^ w * 2 ^ s ≡ x
clear-field s w x fits h =
    omega (arith, bit_and-field s w x, bit_and-complement 32 x (field s w) h fits, complement)
  where
    complement : bit_and x (not32 (field s w)) ≡ bit_and x (2 ^ 32 - 1 - field s w)
    complement = ap (bit_and x) (omega arith)

-- `x | mask` fills the field with ones.
pub or-field : (s w x : ℕ) → bit_or x (field s w) + x / 2 ^ s % 2 ^ w * 2 ^ s ≡ x + field s w
or-field s w x = omega (arith, bit_or-add-bit_and x (field s w), bit_and-field s w x)

-- `(mask & v) | (~mask & x)` puts the field of `v` in the place of that of `x`.
pub put-field :
    (s w x v : ℕ)
    → field s w < 2 ^ 32
    → x < 2 ^ 32
    → bit_or (bit_and (field s w) v) (bit_and (not32 (field s w)) x) + x / 2 ^ s % 2 ^ w * 2 ^ s
      ≡ x + v / 2 ^ s % 2 ^ w * 2 ^ s
put-field s w x v fits h = omega (
  arith,
  bit_or-add-bit_and (bit_and (field s w) v) (bit_and (not32 (field s w)) x),
  ap (λ m. bit_and (bit_and (field s w) v) (bit_and m x)) complement,
  bit_and-disjoint 32 (field s w) v x fits,
  masked s w v,
  bit_and_comm (not32 (field s w)) x,
  clear-field s w x fits h,
)
  where
    complement : not32 (field s w) ≡ 2 ^ 32 - 1 - field s w
    complement = omega arith
