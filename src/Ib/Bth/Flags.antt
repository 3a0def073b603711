-- ===== src/Ib/Bth/Flags.antt =====
-- The setters of the one-byte fields of `ib_bth`: each changes its field and no other.
use libroce.Base.{ℕ, ◌*◌, ◌%◌, ◌^◌, ◌<◌, ◌≡◌, Bool, true, false, arith}
use libroce.Word.Bits.{bit_or-fields}
use libroce.Ib.Bth.{Bth, IsBth, set_opcode, set_se, set_mig, set_padcnt, set_tver}
use libroce.Ib.Bth.Layout.{layout, bit}
use libroce.Word.Field.{clear-field, or-field, put-field}

-- `set_opcode` writes both halves of the opcode byte.
pub layout-set_opcode :
    (h : Bth) (qp_type opcode : ℕ)
    → qp_type < 2 ^ 3
    → opcode < 2 ^ 5
    → layout (set_opcode h qp_type opcode)
      ≡ record (layout h) { qp_type = qp_type; opcode = opcode }
unfolding layout set_opcode
layout-set_opcode h qp_type opcode hq ho = ground (arith, bit_or-fields 5 qp_type opcode ho)

pub layout-set_se :
    (h : Bth) (se : Bool) → IsBth h → layout (set_se h se) ≡ record (layout h) { se = bit se }
unfolding layout set_se
layout-set_se h true v = ground (arith, or-field 7 1 h.flags)
layout-set_se h false v = ground (arith, clear-field 7 1 h.flags (omega arith) (omega arith))

pub layout-set_mig :
    (h : Bth) (mig : Bool) → IsBth h → layout (set_mig h mig) ≡ record (layout h) { mig = bit mig }
unfolding layout set_mig
layout-set_mig h true v = ground (arith, or-field 6 1 h.flags)
layout-set_mig h false v = ground (arith, clear-field 6 1 h.flags (omega arith) (omega arith))

pub layout-set_padcnt :
    (h : Bth) (padcnt : ℕ)
    → IsBth h
    → layout (set_padcnt h padcnt) ≡ record (layout h) { padcnt = padcnt % 2 ^ 2 }
unfolding layout set_padcnt
layout-set_padcnt h padcnt v =
    ground (arith, put-field 4 2 h.flags (padcnt * 2 ^ 4) (omega arith) (omega arith))

pub layout-set_tver :
    (h : Bth) (tver : ℕ)
    → IsBth h
    → layout (set_tver h tver) ≡ record (layout h) { tver = tver % 2 ^ 4 }
unfolding layout set_tver
layout-set_tver h tver v = ground (arith, put-field 0 4 h.flags tver (omega arith) (omega arith))
