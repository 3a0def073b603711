-- ===== src/Net/Ip.antt =====
-- include/spec/ip-spec.h: the IPv4 header (`ip_hdr`), as the numbers that stand in memory.
pub mod Fields
use libroce.Base.{ℕ, ◌+◌, ◌*◌, ◌/◌, ◌%◌, ◌^◌, bit_and, bit_or, Bool, not, ◌==◌}
use libroce.Word.{u8, u16, ◌<<<◌, ◌>>>◌, bswap16, bswap32}
use libroce.Ib.Bth.{truth}
use libroce.Ib.Bth.Layout.{bit}

pub record Ip : Type 0 where
  pub u8_0 : ℕ
  pub tos : ℕ
  pub length : ℕ
  pub id : ℕ
  pub frag_off : ℕ
  pub ttl : ℕ
  pub protocol : ℕ
  pub checksum : ℕ
  pub saddr : ℕ
  pub daddr : ℕ

unfoldable pub get_version : Ip → ℕ
get_version h = bit_and h.u8_0 0xf0 >>> 4

unfoldable pub get_ihl : Ip → ℕ
get_ihl h = bit_and h.u8_0 0xf

unfoldable pub set_version_ihl : Ip → ℕ → ℕ → Ip
set_version_ihl h version ihl = record h { u8_0 = u8 (bit_or (version <<< 4) (bit_and ihl 0xf)) }

unfoldable pub get_precedence : Ip → ℕ
get_precedence h = h.tos >>> 5

unfoldable pub get_tos_d : Ip → Bool
get_tos_d h = truth (bit_and h.tos 0x10)

unfoldable pub get_tos_t : Ip → Bool
get_tos_t h = truth (bit_and h.tos 0x08)

unfoldable pub get_tos_r : Ip → Bool
get_tos_r h = truth (bit_and h.tos 0x04)

unfoldable pub set_tos : Ip → ℕ → Bool → Bool → Bool → Ip
set_tos h precedence d t r = record h {
  tos = u8 (bit_or (bit_or (bit_or (precedence <<< 5) (bit d <<< 4)) (bit t <<< 3)) (bit r <<< 2));
}

unfoldable pub get_length : Ip → ℕ
get_length h = bswap16 h.length

unfoldable pub set_length : Ip → ℕ → Ip
set_length h length = record h { length = bswap16 length }

unfoldable pub get_id : Ip → ℕ
get_id h = bswap16 h.id

unfoldable pub set_id : Ip → ℕ → Ip
set_id h id = record h { id = bswap16 id }

unfoldable pub get_frag_df : Ip → Bool
get_frag_df h = truth (bit_and (bswap16 h.frag_off) 0x4000)

unfoldable pub get_frag_mf : Ip → Bool
get_frag_mf h = truth (bit_and (bswap16 h.frag_off) 0x2000)

unfoldable pub get_offset : Ip → ℕ
get_offset h = bit_and (bswap16 h.frag_off) 0x1fff

-- `id_hdr_set_frag_off`.
unfoldable pub set_frag_off : Ip → Bool → Bool → ℕ → Ip
set_frag_off h df mf offset = record h {
  frag_off =
      bswap16 (u16 (bit_or (bit_or (bit df <<< 14) (bit mf <<< 13)) (bit_and offset 0x1fff)));
}

unfoldable pub get_ttl : Ip → ℕ
get_ttl h = h.ttl

unfoldable pub set_ttl : Ip → ℕ → Ip
set_ttl h ttl = record h { ttl = ttl }

unfoldable pub get_protocol : Ip → ℕ
get_protocol h = h.protocol

unfoldable pub set_protocol : Ip → ℕ → Ip
set_protocol h protocol = record h { protocol = protocol }

unfoldable pub get_checksum : Ip → ℕ
get_checksum h = h.checksum

unfoldable pub set_checksum : Ip → ℕ → Ip
set_checksum h checksum = record h { checksum = checksum }

unfoldable pub get_saddr : Ip → ℕ
get_saddr h = bswap32 h.saddr

unfoldable pub set_saddr : Ip → ℕ → Ip
set_saddr h saddr = record h { saddr = bswap32 saddr }

unfoldable pub get_daddr : Ip → ℕ
get_daddr h = bswap32 h.daddr

unfoldable pub set_daddr : Ip → ℕ → Ip
set_daddr h daddr = record h { daddr = bswap32 daddr }
