-- ===== src/Psn.antt =====
-- Packet sequence numbers: `roce_qp_psn_inc` of include/private/roce-private.h and
-- `roce_compare_psn` of include/private/util.h.
pub mod Order
use libroce.Base.{
  ℤ, pos, negsuc, ℕ, suc, ◌+◌, ◌-◌, ◌*◌, ◌%◌, ◌^◌, bit_and, Bool, true, false, ltb, if◌then◌else◌,
}
use libroce.Word.{u32, sub32, ◌<<<◌}
use libroce.Ib.Bth.{psn_mask}

-- An `int32_t` by its bit pattern.
abbrev pub signed32 : ℕ → ℤ
signed32 w = if ltb w (2 ^ 31) then pos w else negsuc (2 ^ 32 - w - 1)

abbrev pub is_positive : ℤ → Bool
is_positive (pos n) = ltb 0 n
is_positive (negsuc n) = false

abbrev pub is_negative : ℤ → Bool
is_negative (pos n) = false
is_negative (negsuc n) = true

abbrev pub is_zero : ℤ → Bool
is_zero (pos n) = if ltb 0 n then false else true
is_zero (negsuc n) = false

unfoldable pub psn_inc : ℕ → ℕ
psn_inc psn = bit_and (u32 (psn + 1)) psn_mask

-- The difference stands in the 24 upper digits of an `int32_t`, whose sign it gives.
unfoldable pub compare_psn : ℕ → ℕ → ℤ
compare_psn psn0 psn1 = signed32 (u32 (sub32 psn0 psn1 <<< 8))
