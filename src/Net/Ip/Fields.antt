-- ===== src/Net/Ip/Fields.antt =====
-- The fields of the IPv4 header that share a byte or a word.
use libroce.Base.{
  ℕ, ◌+◌, ◌*◌, ◌%◌, ◌^◌, ◌<◌, ◌≡◌, ap, ap₂, ◌∙◌, bit_and, bit_or, Bool, true, false, arith,
}
use libroce.Word.{u8, u16, ◌<<<◌}
use libroce.Word.Bits.{bit_and-low, bit_and-field, bit_or-fields}
use libroce.Word.Swap.{bswap16-bswap16}
use libroce.Ib.Bth.{truth}
use libroce.Ib.Bth.Layout.{bit}
use libroce.Net.Ip.{
  Ip, get_version, get_ihl, set_version_ihl, get_precedence, get_tos_d, get_tos_t, get_tos_r,
  set_tos, get_frag_df, get_frag_mf, get_offset, set_frag_off,
}

-- What `set_version_ihl` writes, the getters read back: four digits of each.
pub getters-set_version_ihl :
    (h : Ip) (version ihl : ℕ)
    → (get_version (set_version_ihl h version ihl) ≡ version % 2 ^ 4)
      × (get_ihl (set_version_ihl h version ihl) ≡ ihl % 2 ^ 4)
unfolding get_version get_ihl set_version_ihl
getters-set_version_ihl h version ihl =
    rw byte (omega (arith, bit_and-field 4 4 b), bit_and-low 4 b ∙ omega arith)
  where
    b : ℕ
    b = version % 2 ^ 4 * 2 ^ 4 + ihl % 2 ^ 4

    byte : u8 (bit_or (version <<< 4) (bit_and ihl 0xf)) ≡ b
    byte =
        ap u8 (
          ap (bit_or (version * 2 ^ 4)) (bit_and-low 4 ihl)
          ∙ bit_or-fields 4 version (ihl % 2 ^ 4) (omega arith))
        ∙ omega arith

bit-lt : (b : Bool) → bit b < 2
bit-lt true = omega arith
bit-lt false = omega arith

-- A flag as the getters read it.
flag : (v k : ℕ) (b : Bool) → 0 < k → v ≡ bit b * k → truth v ≡ b
flag v k true lo e = ground arith
flag v k false lo e = ground arith

-- What `set_tos` writes, the getters read back: three digits of the precedence, and the flags.
pub getters-set_tos :
    (h : Ip) (precedence : ℕ) (d t r : Bool)
    → let h' = set_tos h precedence d t r in
      (get_precedence h' ≡ precedence % 2 ^ 3)
      × (get_tos_d h' ≡ d)
      × (get_tos_t h' ≡ t)
      × (get_tos_r h' ≡ r)
unfolding get_precedence get_tos_d get_tos_t get_tos_r set_tos
getters-set_tos h precedence d t r = rw byte (
  omega (arith, bit-lt d, bit-lt t, bit-lt r),
  flag (bit_and b 16) 16 d (omega arith)
      (omega (arith, bit_and-field 4 1 b, bit-lt d, bit-lt t, bit-lt r)),
  flag (bit_and b 8) 8 t (omega arith)
      (omega (arith, bit_and-field 3 1 b, bit-lt d, bit-lt t, bit-lt r)),
  flag (bit_and b 4) 4 r (omega arith)
      (omega (arith, bit_and-field 2 1 b, bit-lt d, bit-lt t, bit-lt r)),
)
  where
    b : ℕ
    b = precedence % 2 ^ 3 * 2 ^ 5 + bit d * 2 ^ 4 + bit t * 2 ^ 3 + bit r * 2 ^ 2

    upper :
        bit_or (bit_or (precedence <<< 5) (bit d <<< 4)) (bit t <<< 3)
        ≡ ((precedence * 2 + bit d) * 2 + bit t) * 2 ^ 3
    upper =
        ap (λ n. bit_or n (bit t * 2 ^ 3))
          (bit_or-fields 5 precedence (bit d * 2 ^ 4) (omega (arith, bit-lt d)) ∙ omega arith)
        ∙ bit_or-fields 4 (precedence * 2 + bit d) (bit t * 2 ^ 3) (omega (arith, bit-lt t))
        ∙ omega arith

    byte :
        u8 (bit_or (bit_or (bit_or (precedence <<< 5) (bit d <<< 4)) (bit t <<< 3)) (bit r <<< 2))
        ≡ b
    byte =
        ap u8 (
          ap (λ n. bit_or n (bit r * 2 ^ 2)) upper
          ∙ bit_or-fields 3 ((precedence * 2 + bit d) * 2 + bit t) (bit r * 2 ^ 2)
              (omega (arith, bit-lt r)))
        ∙ omega (arith, bit-lt d, bit-lt t, bit-lt r)

-- What `set_frag_off` writes, the getters read back: the flags, and 13 digits of the offset.
pub getters-set_frag_off :
    (h : Ip) (df mf : Bool) (offset : ℕ)
    → let h' = set_frag_off h df mf offset in
      (get_frag_df h' ≡ df) × (get_frag_mf h' ≡ mf) × (get_offset h' ≡ offset % 2 ^ 13)
unfolding get_frag_df get_frag_mf get_offset set_frag_off
getters-set_frag_off h df mf offset =
    rw (word, bswap16-bswap16 w (omega (arith, bit-lt df, bit-lt mf)))
      (
        flag (bit_and w 16384) 16384 df (omega arith)
            (omega (arith, bit_and-field 14 1 w, bit-lt df, bit-lt mf)),
        flag (bit_and w 8192) 8192 mf (omega arith)
            (omega (arith, bit_and-field 13 1 w, bit-lt df, bit-lt mf)),
        bit_and-low 13 w ∙ omega arith,
      )
  where
    w : ℕ
    w = bit df * 2 ^ 14 + bit mf * 2 ^ 13 + offset % 2 ^ 13

    word : u16 (bit_or (bit_or (bit df <<< 14) (bit mf <<< 13)) (bit_and offset 0x1fff)) ≡ w
    word =
        ap u16 (
          ap₂ bit_or
            (bit_or-fields 14 (bit df) (bit mf * 2 ^ 13) (omega (arith, bit-lt mf)) ∙ omega arith)
            (bit_and-low 13 offset)
          ∙ bit_or-fields 13 (bit df * 2 + bit mf) (offset % 2 ^ 13) (omega arith))
        ∙ omega (arith, bit-lt df, bit-lt mf)
