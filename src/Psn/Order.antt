-- ===== src/Psn/Order.antt =====
-- Sequence numbers go round at 2 ^ 24, and are compared by the shorter way round.
use libroce.Base.{ℕ, ◌+◌, ◌-◌, ◌*◌, ◌%◌, ◌^◌, ◌<◌, ◌≡◌, ap, ◌∙◌, true, ◌&&◌, ◌==◌, leb, arith, ltb}
use libroce.Word.{u32, sub32}
use libroce.Word.Bits.{bit_and-low}
use libroce.Psn.{signed32, is_positive, is_negative, is_zero, psn_inc, compare_psn}

-- The number `k` steps after `psn`.
abbrev pub after : ℕ → ℕ → ℕ
after psn k = (psn + k) % 2 ^ 24

pub psn_inc_lem : (psn : ℕ) → psn_inc psn ≡ after psn 1
unfolding psn_inc
psn_inc_lem psn = bit_and-low 24 (u32 (psn + 1)) ∙ omega arith

-- How far `psn0` is ahead of `psn1`, going round.
abbrev pub ahead : ℕ → ℕ → ℕ
ahead psn0 psn1 = (psn0 % 2 ^ 24 + 2 ^ 24 - psn1 % 2 ^ 24) % 2 ^ 24

pub compare_psn-ahead : (psn0 psn1 : ℕ) → compare_psn psn0 psn1 ≡ signed32 (ahead psn0 psn1 * 2 ^ 8)
unfolding compare_psn
compare_psn-ahead psn0 psn1 = ap signed32 pattern
  where
    pattern : u32 (sub32 psn0 psn1 * 2 ^ 8) ≡ ahead psn0 psn1 * 2 ^ 8
    pattern = omega arith

-- The sign of the comparison: zero for the same number, positive for one that is less than half
-- the circle ahead, negative for any other.
pub compare_psn_sign :
    (psn0 psn1 : ℕ)
    → (is_zero (compare_psn psn0 psn1) ≡ (ahead psn0 psn1 == 0))
      × (is_positive (compare_psn psn0 psn1)
          ≡ (ltb 0 (ahead psn0 psn1) && ltb (ahead psn0 psn1) (2 ^ 23)))
      × (is_negative (compare_psn psn0 psn1) ≡ leb (2 ^ 23) (ahead psn0 psn1))
compare_psn_sign psn0 psn1 = rw compare_psn-ahead (sign (ahead psn0 psn1) (omega arith))
  where
    sign :
        (d : ℕ)
        → d < 2 ^ 24
        → (is_zero (signed32 (d * 2 ^ 8)) ≡ (d == 0))
          × (is_positive (signed32 (d * 2 ^ 8)) ≡ (ltb 0 d && ltb d (2 ^ 23)))
          × (is_negative (signed32 (d * 2 ^ 8)) ≡ leb (2 ^ 23) d)
    sign d h = ground arith

-- Of a number and one `k` steps after it, `k` below half the circle, the later is the greater; and
-- the increment takes one step.
pub compare_psn-after :
    (psn k : ℕ)
    → 0 < k
    → k < 2 ^ 23
    → (is_positive (compare_psn (after psn k) psn) ≡ true)
      × (is_negative (compare_psn psn (after psn k)) ≡ true)
      × (psn_inc (after psn k) ≡ after psn (k + 1))
compare_psn-after psn k lo hi = ground (
  arith,
  compare_psn_sign (after psn k) psn,
  compare_psn_sign psn (after psn k),
  psn_inc_lem (after psn k),
)
