-- ===== src/Netpkt/Eth/Address.antt =====
-- netpkt.c: the IPv4 address in an identifier.
use libroce.Base.{ℕ, ◌+◌, ◌*◌, ◌^◌, ◌<◌, bit_or, get_or, ◌≡◌, ap, ap₂, ◌∙◌, List, arith}
use libroce.Word.{u32, ◌<<<◌}
use libroce.Word.Bits.{bit_or-fields}
use libroce.Netpkt.Eth.{gid_to_ipv4}

-- An identifier whose last four entries are bytes.
pub record EndsInBytes (gid : List ℕ) : Type 0 where
  pub at_12 : get_or gid 12 0 < 2 ^ 8
  pub at_13 : get_or gid 13 0 < 2 ^ 8
  pub at_14 : get_or gid 14 0 < 2 ^ 8
  pub at_15 : get_or gid 15 0 < 2 ^ 8

-- The number with those bytes, the highest first.
abbrev pub address_of : List ℕ → ℕ
address_of gid =
    get_or gid 12 0 * 2 ^ 24 + get_or gid 13 0 * 2 ^ 16 + get_or gid 14 0 * 2 ^ 8 + get_or gid 15 0

four_bytes :
    (a b c d : ℕ)
    → a < 2 ^ 8
    → b < 2 ^ 8
    → c < 2 ^ 8
    → d < 2 ^ 8
    → u32 (bit_or (bit_or (bit_or (a <<< 24) (b <<< 16)) (c <<< 8)) d)
      ≡ a * 2 ^ 24 + b * 2 ^ 16 + c * 2 ^ 8 + d
four_bytes a b c d ha hb hc hd =
    ap (λ n. u32 (bit_or (bit_or n (c <<< 8)) d)) two
    ∙ ap (λ n. u32 (bit_or n d)) three
    ∙ ap u32 four
    ∙ omega arith
  where
    two : bit_or (a <<< 24) (b <<< 16) ≡ (a * 2 ^ 8 + b) * 2 ^ 16
    two =
        ap₂ bit_or (omega arith) (omega arith)
        ∙ bit_or-fields 24 a (b * 2 ^ 16) (omega arith)
        ∙ omega arith

    three : bit_or ((a * 2 ^ 8 + b) * 2 ^ 16) (c <<< 8) ≡ (a * 2 ^ 16 + b * 2 ^ 8 + c) * 2 ^ 8
    three =
        ap (bit_or ((a * 2 ^ 8 + b) * 2 ^ 16)) (omega arith)
        ∙ bit_or-fields 16 (a * 2 ^ 8 + b) (c * 2 ^ 8) (omega arith)
        ∙ omega arith

    four :
        bit_or ((a * 2 ^ 16 + b * 2 ^ 8 + c) * 2 ^ 8) d ≡ (a * 2 ^ 16 + b * 2 ^ 8 + c) * 2 ^ 8 + d
    four = bit_or-fields 8 (a * 2 ^ 16 + b * 2 ^ 8 + c) d hd

-- `roce_gid_to_ipv4` is that number.
pub gid_to_ipv4_lem : (gid : List ℕ) → EndsInBytes gid → gid_to_ipv4 gid ≡ address_of gid
unfolding gid_to_ipv4
gid_to_ipv4_lem gid e =
    four_bytes (get_or gid 12 0) (get_or gid 13 0) (get_or gid 14 0) (get_or gid 15 0) e.at_12
      e.at_13 e.at_14 e.at_15
