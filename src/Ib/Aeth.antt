-- ===== src/Ib/Aeth.antt =====
-- include/spec/ib-spec.h: the acknowledge extended transport header (`ib_aeth`).
use libroce.Base.{ℕ, ◌+◌, ◌*◌, ◌/◌, ◌%◌, ◌^◌, ◌<◌, bit_and, bit_or, ◌≡◌, ap, ap₂, ◌∙◌, arith}
use libroce.Word.{u8, u32, ◌<<<◌, ◌>>>◌, not32, bswap32}
use libroce.Word.Bits.{bit_and-low, bit_and-field, bit_and_comm, bit_or-fields}
use libroce.Word.Field.{put-field}
use libroce.Word.Swap.{bswap32-bswap32, bswap32-lt}

pub record Aeth : Type 0 where
  pub u32_0 : ℕ

abbrev syndrome_mask : ℕ
syndrome_mask = 0xff000000

abbrev msn_mask : ℕ
msn_mask = 0x00ffffff

-- `ib_aeth_syndrome_type`, as its numbers.
abbrev pub syndrome_ack : ℕ
syndrome_ack = 0

abbrev pub syndrome_rnr_nak : ℕ
syndrome_rnr_nak = 1

abbrev pub syndrome_nak : ℕ
syndrome_nak = 3

-- `ib_nak_code`.
abbrev pub nak_psn_sequence_error : ℕ
nak_psn_sequence_error = 0

abbrev pub nak_invalid_request : ℕ
nak_invalid_request = 1

unfoldable pub get_syndrome : Aeth → ℕ
get_syndrome h = u8 (bit_and (bswap32 h.u32_0) syndrome_mask >>> 24)

unfoldable pub get_syndrome_type : Aeth → ℕ
unfolding get_syndrome
get_syndrome_type h = bit_and (get_syndrome h >>> 5) 0x3

unfoldable pub get_syndrome_val : Aeth → ℕ
unfolding get_syndrome
get_syndrome_val h = bit_and (get_syndrome h) 0x1f

unfoldable pub set_syndrome : Aeth → ℕ → ℕ → Aeth
set_syndrome h type val = record h {
  u32_0 = bswap32 (
      bit_or (bit_and syndrome_mask (u32 (bit_or (bit_and type 3 <<< 5) (bit_and val 0x1f) <<< 24)))
        (bit_and (not32 syndrome_mask) (bswap32 h.u32_0)));
}

unfoldable pub get_msn : Aeth → ℕ
get_msn h = bit_and (bswap32 h.u32_0) msn_mask

unfoldable pub set_msn : Aeth → ℕ → Aeth
set_msn h msn = record h {
  u32_0 = bswap32 (bit_or (bit_and msn_mask msn) (bit_and (not32 msn_mask) (bswap32 h.u32_0)));
}

unfoldable pub set : Aeth → ℕ → ℕ → ℕ → Aeth
set h type val msn = record h {
  u32_0 = bswap32 (
      bit_or (u32 (bit_or (bit_and type 3 <<< 5) (bit_and val 0x1f) <<< 24))
        (bit_and msn_mask msn));
}

pub syndrome_lem :
    (type val : ℕ) → bit_or (bit_and type 3 <<< 5) (bit_and val 0x1f) ≡ type % 4 * 32 + val % 32
syndrome_lem type val =
    ap₂ (λ t v. bit_or (t * 32) v) (bit_and-low 2 type) (bit_and-low 5 val)
    ∙ bit_or-fields 5 (type % 4) (val % 32) (omega arith)

-- The word that `set` builds.
word :
    (type val msn : ℕ)
    → bit_or (u32 (bit_or (bit_and type 3 <<< 5) (bit_and val 0x1f) <<< 24)) (bit_and msn_mask msn)
      ≡ (type % 4 * 32 + val % 32) * 2 ^ 24 + msn % 2 ^ 24
word type val msn =
    ap₂ bit_or shifted (bit_and_comm msn_mask msn ∙ bit_and-low 24 msn)
    ∙ bit_or-fields 24 (type % 4 * 32 + val % 32) (msn % 2 ^ 24) (omega arith)
  where
    shifted :
        u32 (bit_or (bit_and type 3 <<< 5) (bit_and val 0x1f) <<< 24)
        ≡ (type % 4 * 32 + val % 32) * 2 ^ 24
    shifted = omega (arith, syndrome_lem type val)

-- The getters, of a header whose field in host order is `x`.
read :
    (h : Aeth) (x : ℕ)
    → x < 2 ^ 32
    → h.u32_0 ≡ bswap32 x
    → (get_syndrome_type h ≡ x / 2 ^ 29 % 4)
      × (get_syndrome_val h ≡ x / 2 ^ 24 % 32)
      × (get_msn h ≡ x % 2 ^ 24)
unfolding get_syndrome_type get_syndrome_val get_msn
read h x hx e =
    rw (e, bswap32-bswap32 x hx)
      (
        (bit_and-low 2 _ ∙ omega (arith, bit_and-field 24 8 x)),
        (bit_and-low 5 _ ∙ omega (arith, bit_and-field 24 8 x)),
        bit_and-low 24 x,
      )

-- What `set` writes, the three getters read back: two digits of the type, five of the value and
-- 24 of the message sequence number, whatever stood there before.
pub getters-set :
    (h : Aeth) (type val msn : ℕ)
    → (get_syndrome_type (set h type val msn) ≡ type % 4)
      × (get_syndrome_val (set h type val msn) ≡ val % 32)
      × (get_msn (set h type val msn) ≡ msn % 2 ^ 24)
unfolding set
getters-set h type val msn = omega (
  arith,
  read (set h type val msn) ((type % 4 * 32 + val % 32) * 2 ^ 24 + msn % 2 ^ 24) (omega arith)
      (ap bswap32 (word type val msn)),
)

-- On a header whose field fits 32 digits, `set` is `set_syndrome` and then `set_msn`.
pub set-set_msn-set_syndrome :
    (h : Aeth) (type val msn : ℕ)
    → h.u32_0 < 2 ^ 32
    → set_msn (set_syndrome h type val) msn ≡ set h type val msn
unfolding set set_msn set_syndrome
set-set_msn-set_syndrome h type val msn fits =
    ap (λ w. record { u32_0 = bswap32 w })
      (rw (bswap32-bswap32 v v_fits) (
        omega (
          arith,
          syndrome_put,
          put-field 0 24 v msn (omega arith) v_fits,
          word type val msn,
          syndrome_lem type val,
          bswap32-lt h.u32_0 fits,
        )))
  where
    s : ℕ
    s = u32 (bit_or (bit_and type 3 <<< 5) (bit_and val 0x1f) <<< 24)

    v : ℕ
    v = bit_or (bit_and syndrome_mask s) (bit_and (not32 syndrome_mask) (bswap32 h.u32_0))

    syndrome_put :
        v + bswap32 h.u32_0 / 2 ^ 24 % 2 ^ 8 * 2 ^ 24
        ≡ bswap32 h.u32_0 + s / 2 ^ 24 % 2 ^ 8 * 2 ^ 24
    syndrome_put = put-field 24 8 (bswap32 h.u32_0) s (omega arith) (bswap32-lt h.u32_0 fits)

    v_fits : v < 2 ^ 32
    v_fits = omega (arith, syndrome_put, bswap32-lt h.u32_0 fits)
