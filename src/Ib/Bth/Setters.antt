-- ===== src/Ib/Bth/Setters.antt =====
-- The setters of the big-endian fields of `ib_bth`: each changes its field and no other.
use libroce.Base.{
  ℕ, ◌+◌, ◌-◌, ◌*◌, ◌/◌, ◌%◌, ◌^◌, ◌<◌, bit_and, bit_or, ◌≡◌, ap, ◌∙◌, Bool, true, false, arith,
}
use libroce.Word.{not32, bswap32}
use libroce.Word.Swap.{
  bswap16-bswap16, bswap32-bswap32, bswap32-lt, bswap32-bit_and, bswap32-bit_or, bswap32-complement,
}
use libroce.Ib.Bth.{
  Bth, IsBth, set_pkey, set_fecn, set_becn, clear_resv1, set_destqp, set_ack, clear_resv2, set_psn,
}
use libroce.Ib.Bth.Layout.{layout, bit}
use libroce.Word.Field.{clear-field, or-field, put-field}

-- A swapped mask on the field in memory is the mask on the number that it stands for.
host-or :
    (x m : ℕ) → x < 2 ^ 32 → m < 2 ^ 32 → bswap32 (bit_or x (bswap32 m)) ≡ bit_or (bswap32 x) m
host-or x m hx hm =
    bswap32-bit_or x (bswap32 m) hx (bswap32-lt m hm)
    ∙ ap (bit_or (bswap32 x)) (bswap32-bswap32 m hm)

host-and :
    (x m : ℕ) → x < 2 ^ 32 → m < 2 ^ 32 → bswap32 (bit_and x (bswap32 m)) ≡ bit_and (bswap32 x) m
host-and x m hx hm =
    bswap32-bit_and x (bswap32 m) hx (bswap32-lt m hm)
    ∙ ap (bit_and (bswap32 x)) (bswap32-bswap32 m hm)

host-clear :
    (x m : ℕ)
    → x < 2 ^ 32
    → m < 2 ^ 32
    → bswap32 (bit_and x (not32 (bswap32 m))) ≡ bit_and (bswap32 x) (not32 m)
host-clear x m hx hm =
    ap (λ t. bswap32 (bit_and x t)) swapped ∙ host-and x (not32 m) hx (omega arith)
  where
    swapped : not32 (bswap32 m) ≡ bswap32 (not32 m)
    swapped = omega (arith, bswap32-lt m hm, ap bswap32 (plain m hm), bswap32-complement m hm)
      where
        plain : (k : ℕ) → k < 2 ^ 32 → not32 k ≡ 2 ^ 32 - 1 - k
        plain k h = omega arith

-- The 24 low digits replaced.
host-put :
    (x n : ℕ)
    → x < 2 ^ 32
    → bswap32 (bswap32 (bit_or (bit_and 0xffffff n) (bit_and (not32 0xffffff) x)))
      ≡ x / 2 ^ 24 * 2 ^ 24 + n % 2 ^ 24
host-put x n h = bswap32-bswap32 _ fits ∙ omega (arith, put)
  where
    put :
        bit_or (bit_and 0xffffff n) (bit_and (not32 0xffffff) x) + x / 2 ^ 0 % 2 ^ 24 * 2 ^ 0
        ≡ x + n / 2 ^ 0 % 2 ^ 24 * 2 ^ 0
    put = put-field 0 24 x n (omega arith) h

    fits : bit_or (bit_and 0xffffff n) (bit_and (not32 0xffffff) x) < 2 ^ 32
    fits = omega (arith, put)

pub layout-set_pkey :
    (h : Bth) (pkey : ℕ)
    → pkey < 2 ^ 16
    → layout (set_pkey h pkey) ≡ record (layout h) { pkey = pkey }
unfolding layout set_pkey
layout-set_pkey h pkey hp = ground (arith, bswap16-bswap16 pkey hp)

pub layout-set_fecn :
    (h : Bth) (fecn : Bool)
    → IsBth h
    → layout (set_fecn h fecn) ≡ record (layout h) { fecn = bit fecn }
unfolding layout set_fecn
layout-set_fecn h true v = ground (
  arith,
  host-or h.u32_1 0x80000000 (omega arith) (omega arith),
  or-field 31 1 (bswap32 h.u32_1),
  bswap32-lt h.u32_1 (omega arith),
)
layout-set_fecn h false v = rw (host-clear h.u32_1 0x80000000 v.u32_1_fits (omega arith)) (
    ground (
      arith,
      clear-field 31 1 (bswap32 h.u32_1) (omega arith) (bswap32-lt h.u32_1 v.u32_1_fits),
      bswap32-lt h.u32_1 v.u32_1_fits,
    ))

pub layout-set_becn :
    (h : Bth) (becn : Bool)
    → IsBth h
    → layout (set_becn h becn) ≡ record (layout h) { becn = bit becn }
unfolding layout set_becn
layout-set_becn h true v =
    rw (host-or h.u32_1 0x40000000 v.u32_1_fits (omega arith))
      (ground (arith, or-field 30 1 (bswap32 h.u32_1), bswap32-lt h.u32_1 v.u32_1_fits))
layout-set_becn h false v = rw (host-clear h.u32_1 0x40000000 v.u32_1_fits (omega arith)) (
    ground
      (arith, clear-field 30 1 (bswap32 h.u32_1) (omega arith) (bswap32-lt h.u32_1 v.u32_1_fits)))

pub layout-clear_resv1 :
    (h : Bth) → IsBth h → layout (clear_resv1 h) ≡ record (layout h) { resv1 = 0 }
unfolding layout clear_resv1
layout-clear_resv1 h v = rw (host-and h.u32_1 (not32 0x3f000000) v.u32_1_fits (omega arith)) (
    ground
      (arith, clear-field 24 6 (bswap32 h.u32_1) (omega arith) (bswap32-lt h.u32_1 v.u32_1_fits)))

pub layout-set_destqp :
    (h : Bth) (destqp : ℕ)
    → IsBth h
    → layout (set_destqp h destqp) ≡ record (layout h) { destqp = destqp % 2 ^ 24 }
unfolding layout set_destqp
layout-set_destqp h destqp v =
    rw (host-put (bswap32 h.u32_1) destqp (bswap32-lt h.u32_1 v.u32_1_fits)) (ground arith)

pub layout-set_ack :
    (h : Bth) (ack : Bool) → IsBth h → layout (set_ack h ack) ≡ record (layout h) { ack = bit ack }
unfolding layout set_ack
layout-set_ack h true v =
    rw (host-or h.u32_2 0x80000000 v.u32_2_fits (omega arith))
      (ground (arith, or-field 31 1 (bswap32 h.u32_2), bswap32-lt h.u32_2 v.u32_2_fits))
layout-set_ack h false v = rw (host-clear h.u32_2 0x80000000 v.u32_2_fits (omega arith)) (
    ground (
      arith,
      clear-field 31 1 (bswap32 h.u32_2) (omega arith) (bswap32-lt h.u32_2 v.u32_2_fits),
      bswap32-lt h.u32_2 v.u32_2_fits,
    ))

pub layout-clear_resv2 :
    (h : Bth) → IsBth h → layout (clear_resv2 h) ≡ record (layout h) { resv2 = 0 }
unfolding layout clear_resv2
layout-clear_resv2 h v = rw (host-and h.u32_2 (not32 0x7f000000) v.u32_2_fits (omega arith)) (
    ground
      (arith, clear-field 24 7 (bswap32 h.u32_2) (omega arith) (bswap32-lt h.u32_2 v.u32_2_fits)))

pub layout-set_psn :
    (h : Bth) (psn : ℕ)
    → IsBth h
    → layout (set_psn h psn) ≡ record (layout h) { psn = psn % 2 ^ 24 }
unfolding layout set_psn
layout-set_psn h psn v =
    rw (host-put (bswap32 h.u32_2) psn (bswap32-lt h.u32_2 v.u32_2_fits)) (ground arith)
