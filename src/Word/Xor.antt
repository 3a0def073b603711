-- ===== src/Word/Xor.antt =====
-- `^` on native numbers: its digits, and that it may be regrouped.
use Prim.Native.Nat.{bit_xor-bitwise, differ}
use mathlib.Core.WellFounded
use native.Mathlib.Nat.{pow-suc, div-div-eq-div-mul}
use libroce.Base.{
  ℕ, zero, suc, ◌+◌, ◌*◌, ◌/◌, ◌%◌, ◌^◌, ◌<◌, bit_xor, ◌≡◌, refl, sym, ap, ◌∙◌, arith, lt_wf,
}
use libroce.Word.Bits.{low_digit}

differ_lem : (p q : ℕ) → p < 2 → q < 2 → differ p q ≡ (p + q) % 2
differ_lem zero zero hp hq = refl
differ_lem zero (suc zero) hp hq = refl
differ_lem (suc zero) zero hp hq = refl
differ_lem (suc zero) (suc zero) hp hq = refl
differ_lem zero (suc (suc q)) hp hq = absurd (omega arith)
differ_lem (suc zero) (suc (suc q)) hp hq = absurd (omega arith)
differ_lem (suc (suc p)) q hp hq = absurd (omega arith)

pub zero-bit_xor : (y : ℕ) → bit_xor 0 y ≡ y
zero-bit_xor y = bit_xor-bitwise 0 y

pub bit_xor_step : (x y : ℕ) → bit_xor x y ≡ bit_xor (x / 2) (y / 2) * 2 + (x + y) % 2
bit_xor_step zero y = omega (arith, zero-bit_xor y, zero-bit_xor (y / 2))
bit_xor_step (suc x) y =
    omega (arith, lowest, differ_lem (suc x % 2) (y % 2) (omega arith) (omega arith))
  where
    lowest : bit_xor (suc x) y ≡ bit_xor (suc x / 2) (y / 2) * 2 + differ (suc x % 2) (y % 2)
    lowest = simp bit_xor-bitwise (low_digit (λ b. b) differ x y)

pub bit_xor-half : (x y : ℕ) → bit_xor x y / 2 ≡ bit_xor (x / 2) (y / 2)
bit_xor-half x y = omega (arith, bit_xor_step x y)

pub bit_xor-parity : (x y : ℕ) → bit_xor x y % 2 ≡ (x + y) % 2
bit_xor-parity x y = omega (arith, bit_xor_step x y)

-- Two words with the same halves and the same last digit are the same.
digits_eq : (x y : ℕ) → x / 2 ≡ y / 2 → x % 2 ≡ y % 2 → x ≡ y
digits_eq x y h p = omega arith

pub bit_xor_assoc : (x y z : ℕ) → bit_xor (bit_xor x y) z ≡ bit_xor x (bit_xor y z)
bit_xor_assoc x y z =
    WellFounded.induction lt_wf
      {C = λ a. (b c : ℕ) → bit_xor (bit_xor a b) c ≡ bit_xor a (bit_xor b c)} x step y z
  where
    step :
        (a : ℕ)
        → ((a' : ℕ) → a' < a → (b c : ℕ) → bit_xor (bit_xor a' b) c ≡ bit_xor a' (bit_xor b c))
        → (b c : ℕ) → bit_xor (bit_xor a b) c ≡ bit_xor a (bit_xor b c)
    step zero ih b c = ap (λ t. bit_xor t c) (zero-bit_xor b) ∙ sym (zero-bit_xor (bit_xor b c))
    step (suc a) ih b c =
        digits_eq _ _
          (bit_xor-half _ c
            ∙ ap (λ t. bit_xor t (c / 2)) (bit_xor-half (suc a) b)
            ∙ ih (suc a / 2) (omega arith) (b / 2) (c / 2)
            ∙ ap (bit_xor (suc a / 2)) (sym (bit_xor-half b c))
            ∙ sym (bit_xor-half (suc a) _))
          (omega (
            arith,
            bit_xor-parity (bit_xor (suc a) b) c,
            bit_xor-parity (suc a) b,
            bit_xor-parity (suc a) (bit_xor b c),
            bit_xor-parity b c,
          ))

pub bit_xor_comm : (x y : ℕ) → bit_xor x y ≡ bit_xor y x
bit_xor_comm x y =
    WellFounded.induction lt_wf {C = λ a. (b : ℕ) → bit_xor a b ≡ bit_xor b a} x step y
  where
    at_zero : (b : ℕ) → ((b' : ℕ) → b' < b → bit_xor b' 0 ≡ b') → bit_xor b 0 ≡ b
    at_zero zero ih = zero-bit_xor 0
    at_zero (suc b) ih = omega (arith, bit_xor_step (suc b) 0, ih (suc b / 2) (omega arith))

    step :
        (a : ℕ)
        → ((a' : ℕ) → a' < a → (b : ℕ) → bit_xor a' b ≡ bit_xor b a')
        → (b : ℕ) → bit_xor a b ≡ bit_xor b a
    step zero ih b =
        zero-bit_xor b ∙ sym (WellFounded.induction lt_wf {C = λ n. bit_xor n 0 ≡ n} b at_zero)
    step (suc a) ih b = omega (
      arith,
      bit_xor_step (suc a) b,
      bit_xor_step b (suc a),
      ih (suc a / 2) (omega arith) (b / 2),
    )

-- A word with nothing in its lowest digits and one with nothing else.
pub bit_xor-parts : (k a r : ℕ) → r < 2 ^ k → bit_xor (a * 2 ^ k) r ≡ a * 2 ^ k + r
bit_xor-parts zero a zero h =
    ground (arith, bit_xor_comm a 0, zero-bit_xor a, bit_xor_comm (a * 1) 0, zero-bit_xor (a * 1))
bit_xor-parts zero a (suc r) h = absurd (omega arith)
bit_xor-parts (suc k) a r h = ground (
  arith,
  bit_xor_step (a * 2 ^ suc k) r,
  ap (λ (t : ℕ). a * t) (pow-suc 2 k),
  pow-suc 2 k,
  bit_xor-parts k a (r / 2) (omega (arith, pow-suc 2 k)),
)

-- The digits above those of a short word stay.
pub bit_xor-above : (k x y : ℕ) → y < 2 ^ k → bit_xor x y / 2 ^ k ≡ x / 2 ^ k
bit_xor-above zero x y h =
    ap (λ t. t / 1) (ap (bit_xor x) nothing ∙ bit_xor_comm x 0 ∙ zero-bit_xor x)
  where
    nothing : y ≡ 0
    nothing = omega arith
bit_xor-above (suc k) x y h =
    halve (bit_xor x y)
    ∙ ap (λ t. t / 2 ^ k) (bit_xor-half x y)
    ∙ bit_xor-above k (x / 2) (y / 2) (omega (arith, pow-suc 2 k))
    ∙ sym (halve x)
  where
    halve : (z : ℕ) → z / 2 ^ suc k ≡ z / 2 / 2 ^ k
    halve z = ap (λ t. z / t) (pow-suc 2 k ∙ omega arith) ∙ sym (div-div-eq-div-mul z 2 (2 ^ k))
