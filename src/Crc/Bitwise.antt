-- ===== src/Crc/Bitwise.antt =====
-- crc.c: its table and its step for one byte, against a shift register.
use native.Mathlib.Nat.{pow-suc}
use libroce.Base.{
  ℕ, zero, suc, ◌/◌, ◌%◌, ◌<◌, ◌≡◌, refl, Bool, bit_xor, ◌==◌, if◌then◌else◌, get_or, arith,
}
use libroce.Base.{List, [], ◌∷◌, ◌+◌, ◌*◌, ◌^◌, sym, ap, ap₂, ◌∙◌, Bool-cases, inl, inr}
use libroce.Word.Xor.{
  bit_xor_assoc, bit_xor_comm, bit_xor-half, bit_xor-parity, bit_xor-parts, bit_xor-above,
}
use libroce.Word.Bits.{bit_and-low}
use libroce.Crc.{crc_table, crc32_1}

-- One step of the shift register: a digit shifted out subtracts the polynomial, which is
-- 0x04C11DB7 with its digits in reverse.
abbrev pub shift : ℕ → ℕ
shift x = if x % 2 == 1 then bit_xor (x / 2) 0xedb88320 else x / 2

abbrev pub shifts : ℕ → ℕ → ℕ
shifts zero x = x
shifts (suc n) x = shifts n (shift x)

-- The values of a function from `k` on.
abbrev tabulate : (ℕ → ℕ) → ℕ → ℕ → List ℕ
tabulate f k zero = []
tabulate f k (suc n) = f k ∷ tabulate f (k + 1) n

get_or-tabulate : (f : ℕ → ℕ) (k n i : ℕ) → i < n → get_or (tabulate f k n) i 0 ≡ f (k + i)
get_or-tabulate f k zero i h = absurd (omega arith)
get_or-tabulate f k (suc n) zero h = ap f (omega arith)
get_or-tabulate f k (suc n) (suc i) h =
    get_or-tabulate f (k + 1) n i (omega arith) ∙ ap f (omega arith)

whole_table : crc_table ≡ tabulate (shifts 8) 0 256
unfolding crc_table
whole_table = refl

-- Below 256, the entry of the table is its index after eight steps.
pub crc_table-shifts : (i : ℕ) → i < 256 → get_or crc_table i 0 ≡ shifts 8 i
crc_table-shifts i h =
    ap (λ t. get_or t i 0) whole_table
    ∙ get_or-tabulate (shifts 8) 0 256 i h
    ∙ ap (shifts 8) (omega arith)

-- A register with nothing in its last digit moves by one place, whatever is added to it.
shift_lem : (a y : ℕ) → shift (bit_xor (2 * a) y) ≡ bit_xor a (shift y)
shift_lem a y = elim (Bool-cases (y % 2 == 1)) [
  | inl h ↦ rw (odd h, h) (ap (λ t. bit_xor t 0xedb88320) half ∙ bit_xor_assoc a (y / 2) 0xedb88320)
  | inr h ↦ rw (odd h, h) half
]
  where
    half : bit_xor (2 * a) y / 2 ≡ bit_xor a (y / 2)
    half = bit_xor-half (2 * a) y ∙ ap (λ t. bit_xor t (y / 2)) (omega arith)

    odd : {b : Bool} → (y % 2 == 1) ≡ b → (bit_xor (2 * a) y % 2 == 1) ≡ b
    odd h = ap (λ t. t == 1) (bit_xor-parity (2 * a) y ∙ omega arith) ∙ h

shifts_lem : (n a y : ℕ) → shifts n (bit_xor (a * 2 ^ n) y) ≡ bit_xor a (shifts n y)
shifts_lem zero a y = ap (λ t. bit_xor t y) (omega arith)
shifts_lem (suc n) a y =
    ap (λ t. shifts n (shift (bit_xor t y))) (omega (arith, ap (λ (t : ℕ). a * t) (pow-suc 2 n)))
    ∙ ap (shifts n) (shift_lem (a * 2 ^ n) y)
    ∙ shifts_lem n a (shift y)

-- The register of the checksum takes a byte as eight of its steps do, the byte's digits added
-- first.
pub crc32_1-shifts : (crc byte : ℕ) → byte < 256 → crc32_1 crc byte ≡ shifts 8 (bit_xor crc byte)
unfolding crc32_1
crc32_1-shifts crc byte h =
    ap₂ bit_xor
      (ap (λ i. get_or crc_table i 0) (bit_and-low 8 x) ∙ crc_table-shifts (x % 256) (omega arith))
      (sym (bit_xor-above 8 crc byte h))
    ∙ bit_xor_comm (shifts 8 (x % 256)) (x / 256)
    ∙ sym (shifts_lem 8 (x / 256) (x % 256))
    ∙ ap (shifts 8) (bit_xor-parts 8 (x / 256) (x % 256) (omega arith) ∙ omega arith)
  where
    x : ℕ
    x = bit_xor crc byte
