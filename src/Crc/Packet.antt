-- ===== src/Crc/Packet.antt =====
-- crc.c: `roce_crc32_pkt`, the invariant checksum of a packet, over its headers as they stand in
-- the memory of a little-endian host and the scatter list of the rest.
use libroce.Base.{
  ℕ, ◌+◌, ◌/◌, ◌%◌, ◌^◌, ◌<◌, ◌≡◌, sym, ap, ◌∙◌, List, [], ◌∷◌, ◌++◌, length, ◌==◌, if◌then◌else◌,
  bit_and, bit_or, arith,
}
use libroce.Word.{not32, bswap32}
use libroce.Word.Swap.{bswap32-bswap32, bswap32-bit_or, bswap32-lt}
use libroce.Word.Field.{masked, or-field}
use libroce.Iov.{Iov}
use libroce.Crc.{crc32_buf, crc32}
use libroce.Net.Ip.{Ip, set_ttl, set_checksum}
use libroce.Net.Ipv6.{Ipv6, set_version_tc_fl, set_hop_limit}
use libroce.Net.Udp.{Udp}
use libroce.Ib.Bth.{Bth, destqp_mask, get_destqp}

abbrev pub bytes16 : ℕ → List ℕ
bytes16 w = w % 256 ∷ w / 256 ∷ []

abbrev pub bytes32 : ℕ → List ℕ
bytes32 w = bytes16 (w % 2 ^ 16) ++ bytes16 (w / 2 ^ 16)

-- The twenty bytes of an `ip_hdr`, the forty of an `ipv6_hdr`, the eight of a `udp_hdr` and the
-- twelve of an `ib_bth`.
abbrev pub ip_bytes : Ip → List ℕ
ip_bytes h =
    h.u8_0 ∷ h.tos ∷ bytes16 h.length
    ++ bytes16 h.id
    ++ bytes16 h.frag_off
    ++ h.ttl ∷ h.protocol ∷ bytes16 h.checksum
    ++ bytes32 h.saddr
    ++ bytes32 h.daddr

abbrev pub ipv6_bytes : Ipv6 → List ℕ
ipv6_bytes h =
    bytes32 h.u32_0 ++ bytes16 h.payload_len ++ h.nexthdr ∷ h.hop_limit ∷ h.saddr ++ h.daddr

abbrev pub udp_bytes : Udp → List ℕ
udp_bytes h = bytes16 h.sport ++ bytes16 h.dport ++ bytes16 h.length ++ bytes16 h.checksum

abbrev pub bth_bytes : Bth → List ℕ
bth_bytes h = h.opcode ∷ h.flags ∷ bytes16 h.pkey ++ bytes32 h.u32_1 ++ bytes32 h.u32_2

-- The header at `ip`, as `is_ipv4` tells.
pub data IpHeader : Type 0 where
  ip4 : Ip → IpHeader
  ip6 : Ipv6 → IpHeader

-- What the call writes to the IP header, before it reads it.
unfoldable pub mask_ip4 : Ip → Ip
unfolding set_ttl set_checksum
mask_ip4 h = set_checksum (set_ttl (record h { tos = 0xff }) 0xff) 0xffff

unfoldable pub mask_ip6 : Ipv6 → Ipv6
unfolding set_version_tc_fl set_hop_limit
mask_ip6 h = set_hop_limit (set_version_tc_fl h 6 0xff 0xffffff) 0xff

-- The register after the IP header and the bytes of its options, of which there may be none.
unfoldable pub crc32_ip : IpHeader → List ℕ → ℕ
unfolding mask_ip4 mask_ip6
crc32_ip (ip4 h) ihlbuf =
    let icrc = crc32_buf 0xdebb20e3 (ip_bytes (mask_ip4 h)) in
    if length ihlbuf == 0 then icrc else crc32_buf icrc ihlbuf
crc32_ip (ip6 h) ihlbuf = crc32_buf 0xdebb20e3 (ipv6_bytes (mask_ip6 h))

unfoldable pub mask_udp : Udp → Udp
mask_udp h = record h { checksum = 0xffff }

unfoldable pub mask_bth : Bth → Bth
mask_bth h = record h { u32_1 = bit_or h.u32_1 (bswap32 (not32 destqp_mask)) }

-- The checksum returned; the headers that the call leaves are those of `mask_ip4`, `mask_ip6`,
-- `mask_udp` and `mask_bth`.
unfoldable pub crc32_pkt : (ℕ → ℕ) → IpHeader → List ℕ → Udp → Bth → List Iov → ℕ
unfolding crc32_ip mask_udp mask_bth
crc32_pkt mem ip ihlbuf udph bth iovs =
    let icrc = crc32_ip ip ihlbuf in
    let icrc = crc32_buf icrc (udp_bytes (mask_udp udph)) in
    let icrc = crc32_buf icrc (bth_bytes (mask_bth bth)) in not32 (crc32 mem icrc iovs)

-- Of the word with the destination, the mask keeps the number of the queue pair alone.
destqp_kept :
    (x : ℕ)
    → x < 2 ^ 32
    → bit_or x (bswap32 (not32 destqp_mask))
      ≡ bswap32 (bit_and destqp_mask (bswap32 x) + not32 destqp_mask)
destqp_kept x h =
    ap (λ w. bit_or w (bswap32 (not32 destqp_mask))) (sym (bswap32-bswap32 x h))
    ∙ sym (bswap32-bit_or y 0xff000000 (bswap32-lt x h) (omega arith))
    ∙ ap bswap32 (omega (arith, or-field 24 8 y, masked 0 24 y, bswap32-lt x h))
  where
    y : ℕ
    y = bswap32 x

-- The checksum of an IPv4 packet is the same whatever its type of service, its time to live and
-- its two other checksums are, and whatever the digits beside the queue pair number are in its word
-- of the transport header.
pub crc32_pkt_variant :
    (mem : ℕ → ℕ) (h : Ip) (ihlbuf : List ℕ) (u : Udp) (b : Bth) (iovs : List Iov)
    (tos ttl sum udp_sum x : ℕ)
    → b.u32_1 < 2 ^ 32
    → x < 2 ^ 32
    → get_destqp (record b { u32_1 = x }) ≡ get_destqp b
    → crc32_pkt mem
        (ip4 (record h { tos = tos; ttl = ttl; checksum = sum }))
        ihlbuf
        (record u { checksum = udp_sum })
        (record b { u32_1 = x })
        iovs
      ≡ crc32_pkt mem (ip4 h) ihlbuf u b iovs
unfolding crc32_pkt get_destqp
crc32_pkt_variant mem h ihlbuf u b iovs tos ttl sum udp_sum x fits fits' same =
    ap
      (λ w. not32 (
        crc32 mem
          (crc32_buf (crc32_buf (crc32_ip (ip4 h) ihlbuf) (udp_bytes (mask_udp u)))
            (bth_bytes (record b { u32_1 = w })))
          iovs))
      (destqp_kept x fits'
        ∙ ap (λ n. bswap32 (n + not32 destqp_mask)) same
        ∙ sym (destqp_kept b.u32_1 fits))
