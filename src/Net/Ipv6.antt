-- ===== src/Net/Ipv6.antt =====
-- include/spec/ipv6-spec.h: the IPv6 header (`ipv6_hdr`), as the numbers that stand in memory. The
-- two addresses are their sixteen bytes.
use libroce.Base.{ℕ, ◌+◌, ◌*◌, ◌%◌, ◌^◌, ◌<◌, ◌≡◌, bit_and, bit_or, List, arith, ap, ap₂, ◌∙◌}
use libroce.Word.{u8, u32, ◌<<<◌, ◌>>>◌, bswap16, bswap32}
use libroce.Word.Bits.{bit_and-low, bit_and-field, bit_or-fields}
use libroce.Word.Swap.{bswap32-bswap32}

pub record Ipv6 : Type 0 where
  pub u32_0 : ℕ
  pub payload_len : ℕ
  pub nexthdr : ℕ
  pub hop_limit : ℕ
  pub saddr : List ℕ
  pub daddr : List ℕ

unfoldable pub get_version : Ipv6 → ℕ
get_version h = u8 (bswap32 h.u32_0 >>> 28)

unfoldable pub get_tclass : Ipv6 → ℕ
get_tclass h = u8 (bit_and (bswap32 h.u32_0) 0x0ff00000 >>> 20)

unfoldable pub get_flow_lable : Ipv6 → ℕ
get_flow_lable h = bit_and (bswap32 h.u32_0) 0x000fffff

unfoldable pub set_version_tc_fl : Ipv6 → ℕ → ℕ → ℕ → Ipv6
set_version_tc_fl h version tclass flow_lable = record h {
  u32_0 = bswap32 (
      u32 (
        bit_or (bit_or (bit_and version 0xf <<< 28) (tclass <<< 20))
          (bit_and flow_lable 0x000fffff)));
}

unfoldable pub get_payload_len : Ipv6 → ℕ
get_payload_len h = bswap16 h.payload_len

unfoldable pub set_payload_len : Ipv6 → ℕ → Ipv6
set_payload_len h payload_len = record h { payload_len = bswap16 payload_len }

unfoldable pub get_nexthdr : Ipv6 → ℕ
get_nexthdr h = h.nexthdr

unfoldable pub set_nexthdr : Ipv6 → ℕ → Ipv6
set_nexthdr h nexthdr = record h { nexthdr = nexthdr }

unfoldable pub get_hop_limit : Ipv6 → ℕ
get_hop_limit h = h.hop_limit

unfoldable pub set_hop_limit : Ipv6 → ℕ → Ipv6
set_hop_limit h hop_limit = record h { hop_limit = hop_limit }

-- `memcpy` of sixteen bytes.
unfoldable pub set_saddr : Ipv6 → List ℕ → Ipv6
set_saddr h saddr = record h { saddr = saddr }

unfoldable pub set_daddr : Ipv6 → List ℕ → Ipv6
set_daddr h daddr = record h { daddr = daddr }

-- What `set_version_tc_fl` writes, the three getters read back: four digits of the version, a
-- traffic class of eight digits whole and 20 digits of the flow label, whatever stood there before.
pub getters-set_version_tc_fl :
    (h : Ipv6) (version tclass flow_lable : ℕ)
    → tclass < 2 ^ 8
    → let h' = set_version_tc_fl h version tclass flow_lable in
      (get_version h' ≡ version % 2 ^ 4)
      × (get_tclass h' ≡ tclass)
      × (get_flow_lable h' ≡ flow_lable % 2 ^ 20)
unfolding get_version get_tclass get_flow_lable set_version_tc_fl
getters-set_version_tc_fl h version tclass flow_lable ht =
    rw (word, bswap32-bswap32 w (omega arith))
      (omega arith, omega (arith, bit_and-field 20 8 w), bit_and-low 20 w ∙ omega arith)
  where
    w : ℕ
    w = (version % 2 ^ 4 * 2 ^ 8 + tclass) * 2 ^ 20 + flow_lable % 2 ^ 20

    upper :
        bit_or (bit_and version 0xf <<< 28) (tclass <<< 20)
        ≡ (version % 2 ^ 4 * 2 ^ 8 + tclass) * 2 ^ 20
    upper =
        ap (λ t. bit_or (t * 2 ^ 28) (tclass * 2 ^ 20)) (bit_and-low 4 version)
        ∙ bit_or-fields 28 (version % 2 ^ 4) (tclass * 2 ^ 20) (omega arith)
        ∙ omega arith

    word :
        u32 (
          bit_or
            (bit_or (bit_and version 0xf <<< 28) (tclass <<< 20))
            (bit_and flow_lable 0x000fffff))
        ≡ w
    word =
        ap u32 (
          ap₂ bit_or upper (bit_and-low 20 flow_lable)
          ∙ bit_or-fields 20 (version % 2 ^ 4 * 2 ^ 8 + tclass) (flow_lable % 2 ^ 20) (omega arith))
        ∙ omega arith
