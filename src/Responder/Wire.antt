-- ===== src/Responder/Wire.antt =====
-- The headers of a received packet as they are copied from its bytes on a little-endian host.
use libroce.Base.{ℕ, ◌+◌, ◌*◌, ◌^◌, List, get_or, take, drop}
use libroce.Net.Ethernet.{Ethernet}
use libroce.Net.Ip.{Ip}
use libroce.Net.Ipv6.{Ipv6}
use libroce.Net.Udp.{Udp}
use libroce.Ib.Bth.{Bth}
use libroce.Ib.Reth.{Reth}
use libroce.Ib.Deth.{Deth}
use libroce.Ib.Aeth.{Aeth}
use libroce.Ib.Immdt.{Immdt}

-- The number of so many bytes that starts at an index.
abbrev pub byte_of : List ℕ → ℕ → ℕ
byte_of buf i = get_or buf i 0

abbrev pub word16 : List ℕ → ℕ → ℕ
word16 buf i = byte_of buf i + byte_of buf (i + 1) * 2 ^ 8

abbrev pub word32 : List ℕ → ℕ → ℕ
word32 buf i = word16 buf i + word16 buf (i + 2) * 2 ^ 16

abbrev pub word64 : List ℕ → ℕ → ℕ
word64 buf i = word32 buf i + word32 buf (i + 4) * 2 ^ 32

unfoldable pub ethernet_from : List ℕ → Ethernet
ethernet_from buf = record { dmac = take 6 buf; smac = take 6 (drop 6 buf); type = word16 buf 12 }

unfoldable pub ip_from : List ℕ → Ip
ip_from buf = record {
  u8_0 = byte_of buf 0;
  tos = byte_of buf 1;
  length = word16 buf 2;
  id = word16 buf 4;
  frag_off = word16 buf 6;
  ttl = byte_of buf 8;
  protocol = byte_of buf 9;
  checksum = word16 buf 10;
  saddr = word32 buf 12;
  daddr = word32 buf 16;
}

unfoldable pub ipv6_from : List ℕ → Ipv6
ipv6_from buf = record {
  u32_0 = word32 buf 0;
  payload_len = word16 buf 4;
  nexthdr = byte_of buf 6;
  hop_limit = byte_of buf 7;
  saddr = take 16 (drop 8 buf);
  daddr = take 16 (drop 24 buf);
}

unfoldable pub udp_from : List ℕ → Udp
udp_from buf = record {
  sport = word16 buf 0;
  dport = word16 buf 2;
  length = word16 buf 4;
  checksum = word16 buf 6;
}

unfoldable pub bth_from : List ℕ → Bth
bth_from buf = record {
  opcode = byte_of buf 0;
  flags = byte_of buf 1;
  pkey = word16 buf 2;
  u32_1 = word32 buf 4;
  u32_2 = word32 buf 8;
}

unfoldable pub reth_from : List ℕ → Reth
reth_from buf = record { va = word64 buf 0; rkey = word32 buf 8; dmalen = word32 buf 12 }

unfoldable pub deth_from : List ℕ → Deth
deth_from buf = record { qkey = word32 buf 0; u32_1 = word32 buf 4 }

unfoldable pub aeth_from : List ℕ → Aeth
aeth_from buf = record { u32_0 = word32 buf 0 }

unfoldable pub immdt_from : List ℕ → Immdt
immdt_from buf = record { immdt = word32 buf 0 }
