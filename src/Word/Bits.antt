-- ===== src/Word/Bits.antt =====
-- `&` and `|` with masks, as arithmetic. The native operations stand for a recursion on binary
-- digits with fuel; the laws are proved from one equation for the lowest digit.
use Prim.Native.Nat.{digits, bitwise, bit_and-bitwise, bit_or-bitwise}
use mathlib.Core.WellFounded
use native.Mathlib.Nat.{pow-suc, le_refl, div-add-mod', mod-lt, one-le-pow}
use libroce.Base.{
  ℕ, zero, suc, ◌+◌, ◌-◌, ◌*◌, ◌/◌, ◌%◌, ◌^◌, ◌≤◌, ◌<◌, min, max, bit_and, bit_or, ◌≡◌, refl, sym,
  ap, ap₂, ◌∙◌, arith, lt_wf,
}

module _ (rest : ℕ → ℕ) (op : ℕ → ℕ → ℕ) where
  enough_fuel : (k l x y : ℕ) → x ≤ k → x ≤ l → digits rest op k x y ≡ digits rest op l x y
  enough_fuel zero zero x y p q = refl
  enough_fuel (suc k) zero zero y p q = refl
  enough_fuel (suc k) zero (suc x) y p q = absurd (omega arith)
  enough_fuel zero (suc l) zero y p q = refl
  enough_fuel zero (suc l) (suc x) y p q = absurd (omega arith)
  enough_fuel (suc k) (suc l) zero y p q = refl
  enough_fuel (suc k) (suc l) (suc x) y p q =
      ap (λ t. t * 2 + op (suc x % 2) (y % 2))
        (enough_fuel k l (suc x / 2) (y / 2) (omega arith) (omega arith))

  pub low_digit :
      (x y : ℕ)
      → bitwise rest op (suc x) y ≡ bitwise rest op (suc x / 2) (y / 2) * 2 + op (suc x % 2) (y % 2)
  low_digit x y =
      ap (λ t. t * 2 + op (suc x % 2) (y % 2))
        (enough_fuel x (suc x / 2) (suc x / 2) (y / 2) (omega arith) (le_refl _))

pub bit_and_step : (x y : ℕ) → bit_and x y ≡ bit_and (x / 2) (y / 2) * 2 + min (x % 2) (y % 2)
bit_and_step zero y = simp bit_and-bitwise (omega arith)
bit_and_step (suc x) y = simp bit_and-bitwise (low_digit (λ b. 0) min x y)

pub bit_or_step : (x y : ℕ) → bit_or x y ≡ bit_or (x / 2) (y / 2) * 2 + max (x % 2) (y % 2)
bit_or_step zero y = simp bit_or-bitwise (omega arith)
bit_or_step (suc x) y = simp bit_or-bitwise (low_digit (λ b. b) max x y)

pub zero-bit_and : (y : ℕ) → bit_and 0 y ≡ 0
zero-bit_and y = bit_and-bitwise 0 y

pub zero-bit_or : (y : ℕ) → bit_or 0 y ≡ y
zero-bit_or y = bit_or-bitwise 0 y

-- Both operations at once: what one loses of the sum, the other keeps.
pub bit_or-add-bit_and : (x y : ℕ) → bit_or x y + bit_and x y ≡ x + y
bit_or-add-bit_and x y =
    WellFounded.induction lt_wf {C = λ a. (b : ℕ) → bit_or a b + bit_and a b ≡ a + b} x step y
  where
    step :
        (a : ℕ)
        → ((a' : ℕ) → a' < a → (b : ℕ) → bit_or a' b + bit_and a' b ≡ a' + b)
        → (b : ℕ) → bit_or a b + bit_and a b ≡ a + b
    step zero ih b = omega (arith, zero-bit_and b, zero-bit_or b)
    step (suc a) ih b =
        omega (
          arith,
          bit_and_step (suc a) b,
          bit_or_step (suc a) b,
          ih (suc a / 2) (omega arith) (b / 2),
        )

two_pow : (k : ℕ) → 2 ^ suc k ≡ 2 * 2 ^ k
two_pow k = omega (arith, pow-suc 2 k)

mul_two_pow : (q k : ℕ) → q * 2 ^ suc k ≡ 2 * (q * 2 ^ k)
mul_two_pow q k = omega (arith, ap (λ (t : ℕ). q * t) (pow-suc 2 k))

-- The two halves of a word meet their own halves of the mask.
pub bit_and-split :
    (k a b r s : ℕ)
    → r < 2 ^ k
    → s < 2 ^ k
    → bit_and (a * 2 ^ k + r) (b * 2 ^ k + s) ≡ bit_and a b * 2 ^ k + bit_and r s
bit_and-split zero a b zero zero hr hs = ground (arith, zero-bit_and 0)
bit_and-split zero a b (suc r) s hr hs = absurd (omega arith)
bit_and-split zero a b zero (suc s) hr hs = absurd (omega arith)
bit_and-split (suc k) a b r s hr hs = ground (
  arith,
  bit_and_step (a * 2 ^ suc k + r) (b * 2 ^ suc k + s),
  bit_and_step r s,
  mul_two_pow a k,
  mul_two_pow b k,
  mul_two_pow (bit_and a b) k,
  two_pow k,
  bit_and-split k a b (r / 2) (s / 2) (omega (arith, two_pow k)) (omega (arith, two_pow k)),
)

pub bit_or-split :
    (k a b r s : ℕ)
    → r < 2 ^ k
    → s < 2 ^ k
    → bit_or (a * 2 ^ k + r) (b * 2 ^ k + s) ≡ bit_or a b * 2 ^ k + bit_or r s
bit_or-split k a b r s hr hs = omega (
  arith,
  bit_and-split k a b r s hr hs,
  bit_or-add-bit_and (a * 2 ^ k + r) (b * 2 ^ k + s),
  bit_or-add-bit_and r s,
  ap (λ (t : ℕ). t * 2 ^ k) (bit_or-add-bit_and a b),
)

pub bit_and_comm : (x y : ℕ) → bit_and x y ≡ bit_and y x
bit_and_comm x y =
    WellFounded.induction lt_wf {C = λ a. (b : ℕ) → bit_and a b ≡ bit_and b a} x step y
  where
    at_zero : (b : ℕ) → bit_and b 0 ≡ 0
    at_zero b = WellFounded.induction lt_wf {C = λ n. bit_and n 0 ≡ 0} b λ n ih.
        elim n as (λ m. ((l : ℕ) → l < m → bit_and l 0 ≡ 0) → bit_and m 0 ≡ 0) [
          | zero ↦ λ h. refl
          | suc m ↦ λ h. omega (arith, bit_and_step (suc m) 0, h (suc m / 2) (omega arith))
        ]
          ih

    step :
        (a : ℕ)
        → ((a' : ℕ) → a' < a → (b : ℕ) → bit_and a' b ≡ bit_and b a')
        → (b : ℕ) → bit_and a b ≡ bit_and b a
    step zero ih b = omega (arith, zero-bit_and b, at_zero b)
    step (suc a) ih b = omega (
      arith,
      bit_and_step (suc a) b,
      bit_and_step b (suc a),
      ih (suc a / 2) (omega arith) (b / 2),
    )

pub bit_and-zero : (x : ℕ) → bit_and x 0 ≡ 0
bit_and-zero x = omega (arith, bit_and_comm x 0, zero-bit_and x)

pub bit_or_comm : (x y : ℕ) → bit_or x y ≡ bit_or y x
bit_or_comm x y = omega (arith, bit_or-add-bit_and x y, bit_or-add-bit_and y x, bit_and_comm x y)

-- A mask and its complement share a word between them.
pub bit_and-complement :
    (w x m : ℕ) → x < 2 ^ w → m < 2 ^ w → bit_and x m + bit_and x (2 ^ w - 1 - m) ≡ x
bit_and-complement zero zero m hx hm = omega (arith, zero-bit_and m, zero-bit_and (2 ^ 0 - 1 - m))
bit_and-complement zero (suc x) m hx hm = absurd (omega arith)
bit_and-complement (suc w) x m hx hm = ground (
  arith,
  two_pow w,
  bit_and_step x m,
  bit_and_step x (2 ^ suc w - 1 - m),
  bit_and-complement w (x / 2) (m / 2) (omega (arith, two_pow w)) (omega (arith, two_pow w)),
)

pub bit_and-le : (w x m : ℕ) → x < 2 ^ w → m < 2 ^ w → bit_and x m ≤ x
bit_and-le w x m hx hm = omega (arith, bit_and-complement w x m hx hm)

pub bit_or-lt : (w x m : ℕ) → x < 2 ^ w → m < 2 ^ w → bit_or x m < 2 ^ w
bit_or-lt w x m hx hm = omega (
  arith,
  bit_or-add-bit_and x m,
  bit_and-complement w x m hx hm,
  bit_and_comm x (2 ^ w - 1 - m),
  bit_and-le w (2 ^ w - 1 - m) x (omega arith) hx,
)

pub de_morgan :
    (w x m : ℕ)
    → x < 2 ^ w
    → m < 2 ^ w
    → bit_or x m + bit_and (2 ^ w - 1 - x) (2 ^ w - 1 - m) ≡ 2 ^ w - 1
de_morgan w x m hx hm = omega (
  arith,
  bit_or-add-bit_and x m,
  bit_and-complement w (2 ^ w - 1 - x) m (omega arith) hm,
  bit_and_comm (2 ^ w - 1 - x) m,
  bit_and-complement w m x hm hx,
  bit_and_comm m x,
)

-- What a mask lets through and what its complement lets through share no digit.
pub bit_and-disjoint :
    (w m x y : ℕ) → m < 2 ^ w → bit_and (bit_and m x) (bit_and (2 ^ w - 1 - m) y) ≡ 0
bit_and-disjoint zero zero x y h =
    ap (λ t. bit_and t (bit_and (2 ^ 0 - 1 - 0) y)) (zero-bit_and x)
    ∙ zero-bit_and (bit_and (2 ^ 0 - 1 - 0) y)
bit_and-disjoint zero (suc m) x y h = absurd (omega arith)
bit_and-disjoint (suc w) m x y h = ground (
  arith,
  two_pow w,
  bit_and_step (bit_and m x) (bit_and (2 ^ suc w - 1 - m) y),
  bit_and_step m x,
  bit_and_step (2 ^ suc w - 1 - m) y,
  bit_and-disjoint w (m / 2) (x / 2) (y / 2) (omega (arith, two_pow w)),
  ap₂ bit_and low (ap₂ bit_and flipped refl),
)
  where
    flipped : (2 ^ suc w - 1 - m) / 2 ≡ 2 ^ w - 1 - m / 2
    flipped = omega (arith, two_pow w)

    low : bit_and m x / 2 ≡ bit_and (m / 2) (x / 2)
    low = omega (arith, bit_and_step m x)

-- Dividing by `2 ^ k`, and putting the parts together again.
parts : (k x : ℕ) → x / 2 ^ k * 2 ^ k + x % 2 ^ k ≡ x
parts k x = div-add-mod' x (2 ^ k)

pub pow_pos : (k : ℕ) → 0 < 2 ^ k
pow_pos k = one-le-pow k 2 (omega arith)

remainder-lt : (k x : ℕ) → x % 2 ^ k < 2 ^ k
remainder-lt k x = mod-lt x (pow_pos k)

-- A mask of ones below digit `k`.
pub bit_and-low : (k x : ℕ) → bit_and x (2 ^ k - 1) ≡ x % 2 ^ k
bit_and-low k x =
    ap₂ bit_and (sym (parts k x)) (omega arith)
    ∙ bit_and-split k (x / 2 ^ k) 0 (x % 2 ^ k) (2 ^ k - 1) (remainder-lt k x)
        (omega (arith, pow_pos k))
    ∙ omega (
      arith,
      ap (λ (t : ℕ). t * 2 ^ k) (bit_and-zero (x / 2 ^ k)),
      keeps (x % 2 ^ k) (remainder-lt k x),
    )
  where
    nothing : 2 ^ k - 1 - (2 ^ k - 1) ≡ 0
    nothing = omega arith

    keeps : (r : ℕ) → r < 2 ^ k → bit_and r (2 ^ k - 1) ≡ r
    keeps r h = omega (
      arith,
      bit_and-complement k r (2 ^ k - 1) h (omega (arith, pow_pos k)),
      ap (bit_and r) nothing,
      bit_and-zero r,
    )

-- A mask of `w` ones above `s` zeros.
pub bit_and-field : (s w x : ℕ) → bit_and x ((2 ^ w - 1) * 2 ^ s) ≡ x / 2 ^ s % 2 ^ w * 2 ^ s
bit_and-field s w x =
    ap₂ bit_and (sym (parts s x)) (omega arith)
    ∙ bit_and-split s (x / 2 ^ s) (2 ^ w - 1) (x % 2 ^ s) 0 (remainder-lt s x) (pow_pos s)
    ∙ omega (arith, ap (λ (t : ℕ). t * 2 ^ s) (bit_and-low w (x / 2 ^ s)), bit_and-zero (x % 2 ^ s))

-- `(a << k) | r` is a sum where `r` has `k` digits.
pub bit_or-fields : (k a r : ℕ) → r < 2 ^ k → bit_or (a * 2 ^ k) r ≡ a * 2 ^ k + r
bit_or-fields k a r h =
    ap₂ bit_or shifted low
    ∙ bit_or-split k a 0 0 r (pow_pos k) h
    ∙ omega (
      arith,
      ap (λ (t : ℕ). t * 2 ^ k) (bit_or_comm a 0),
      ap (λ (t : ℕ). t * 2 ^ k) (zero-bit_or a),
      zero-bit_or r,
    )
  where
    shifted : a * 2 ^ k ≡ a * 2 ^ k + 0
    shifted = omega arith

    low : r ≡ 0 * 2 ^ k + r
    low = omega arith
