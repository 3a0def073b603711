-- ===== src/Tests/Ib.antt =====
-- The transport headers and sequence numbers on concrete values.
use libroce.Base.{ℕ, ◌%◌, ◌^◌, ◌≡◌, ◌↔◌, ◌&&◌, ◌==◌, refl, true, some, none, arith, ltb, leb}
use libroce.Ib.Bth.{Bth, IsBth}
use libroce.Ib.Bth.Layout.{layout}
use libroce.Ib.Bth.Getters.{got, got-layout}
use libroce.Qp.{rc, qp_type_to_ib}
use libroce.Netpkt.{set_bth}
use libroce.Netpkt.SetBth.{asked, layout-set_bth}
use libroce.Ib.Reth.{Reth}
use libroce.Ib.Atomiceth
use libroce.Ib.Atomiceth.{Atomiceth, getters-setters}
use libroce.Ib.Aeth
use libroce.Ib.Aeth.{
  Aeth, getters-set, set-set_msn-set_syndrome, get_syndrome_type, get_syndrome_val, get_msn,
}
use libroce.Ib.Opcode.{opcode_str, opcode_str-none}
use libroce.Psn.{compare_psn, is_positive, is_negative, is_zero}
use libroce.Psn.Order.{ahead, compare_psn_sign}

abbrev stale : Bth
stale = record { opcode = 255; flags = 255; pkey = 65535; u32_1 = 4294967295; u32_2 = 4294967295 }

stale-IsBth : IsBth stale
stale-IsBth = record {
  opcode_fits = omega arith;
  flags_fit = omega arith;
  pkey_fits = omega arith;
  u32_1_fits = omega arith;
  u32_2_fits = omega arith;
}

rc_number : qp_type_to_ib rc ≡ some 0
unfolding qp_type_to_ib
rc_number = refl

layout-set_bth_example :
    (h' : Bth) × (set_bth stale rc 4 true 3 0x000012 true 0xabcdef ≡ some h')
    × IsBth h'
    × (layout h' ≡ asked 0 4 true 3 0x000012 true 0xabcdef)
layout-set_bth_example =
    layout-set_bth stale rc 0 4 true 3 0x000012 true 0xabcdef stale-IsBth (omega arith) rc_number

got-layout_example : got stale (layout stale) ≡ layout stale
got-layout_example = got-layout stale stale-IsBth

abbrev reth : Reth
reth = record { va = 1; rkey = 2; dmalen = 3 }

abbrev atomiceth : Atomiceth
atomiceth = record { va = 1; rkey = 2; swapdt = 3; cmpdt = 4 }

abbrev atomiceth_filled : Atomiceth
atomiceth_filled =
    Atomiceth.set_cmpdt
      (Atomiceth.set_swapdt (Atomiceth.set_rkey (Atomiceth.set_va atomiceth 10) 20) 30) 40

abbrev aeth : Aeth
aeth = record { u32_0 = 0xdeadbeef }

getters-set_example :
    (get_syndrome_type (Aeth.set aeth 3 33 0x1000002) ≡ 3 % 4)
    × (get_syndrome_val (Aeth.set aeth 3 33 0x1000002) ≡ 33 % 32)
    × (get_msn (Aeth.set aeth 3 33 0x1000002) ≡ 0x1000002 % 2 ^ 24)
getters-set_example = getters-set aeth 3 33 0x1000002

set-set_msn-set_syndrome_example : Aeth.set_msn (Aeth.set_syndrome aeth 3 1) 7 ≡ Aeth.set aeth 3 1 7
set-set_msn-set_syndrome_example = set-set_msn-set_syndrome aeth 3 1 7 (omega arith)

opcode_str-none_example : (opcode_str 24 ≡ none) ↔ (◌≡◌ {A = ℕ} 24 24)
opcode_str-none_example = opcode_str-none 24

compare_psn_sign_example :
    (is_zero (compare_psn 1 0xffffff) ≡ (ahead 1 0xffffff == 0))
    × (is_positive (compare_psn 1 0xffffff)
        ≡ (ltb 0 (ahead 1 0xffffff) && ltb (ahead 1 0xffffff) (2 ^ 23)))
    × (is_negative (compare_psn 1 0xffffff) ≡ leb (2 ^ 23) (ahead 1 0xffffff))
compare_psn_sign_example = compare_psn_sign 1 0xffffff
