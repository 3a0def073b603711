-- ===== src/Tests/Net.antt =====
-- The network headers of a small packet.
use Prim.{tt}
use libroce.Base.{ℕ, ◌%◌, ◌^◌, ◌<◌, ◌≡◌, refl, List, [], ◌∷◌, ◌++◌, some, arith}
use libroce.Net.Ip.{Ip}
use libroce.Net.Ipv6.{Ipv6}
use libroce.Net.Udp.{Udp}
use libroce.Net.Checksum.{checksum, AreWords, checksum-checksum}
use libroce.Word.{bswap16, bswap32}
use libroce.Ib.Bth.{Bth, get_destqp}
use libroce.Crc.Packet.{ip4, crc32_pkt, crc32_pkt_variant}
use libroce.Iov.{Iov}
use libroce.Netpkt.Eth.{Netpkt, netpkt_set4}
use libroce.Netpkt.Eth.Address.{EndsInBytes}
use libroce.Netpkt.Eth.Ipv4.{IsFresh, Sent, netpkt_set4-Sent}

abbrev ip : Ip
ip = record {
  u8_0 = 0;
  tos = 0;
  length = 0;
  id = 0;
  frag_off = 0;
  ttl = 0;
  protocol = 0;
  checksum = 0;
  saddr = 0;
  daddr = 0;
}

abbrev ipv6 : Ipv6
ipv6 = record { u32_0 = 7; payload_len = 0; nexthdr = 0; hop_limit = 0; saddr = []; daddr = [] }

abbrev udp : Udp
udp = record { sport = 0; dport = 0; length = 0; checksum = 0 }

abbrev bth : Bth
bth = record { opcode = 4; flags = 0; pkey = 65535; u32_1 = 0x12000000; u32_2 = 1 }

abbrev mem : ℕ → ℕ
mem a = a % 256

abbrev front : List ℕ
front = 0x0045 ∷ 0xffff ∷ []

abbrev back : List ℕ
back = 0xfffe ∷ []

all_words : AreWords (front ++ 0 ∷ back)
all_words = (omega arith, (omega arith, (omega arith, (omega arith, tt))))

checksum-checksum_example :
    (c : ℕ) × (checksum (front ++ 0 ∷ back) ≡ some c)
    × (c < 2 ^ 16)
    × (checksum (front ++ c ∷ back) ≡ some 0)
checksum-checksum_example = checksum-checksum front back all_words (omega arith)

same_destqp : get_destqp (record bth { u32_1 = 0x120000ff }) ≡ get_destqp bth
unfolding get_destqp bswap32 bswap16
same_destqp = refl

abbrev payload : List Iov
payload = record { base = 100; len = 3 } ∷ []

crc32_pkt_variant_example :
    crc32_pkt mem
      (ip4 (record ip { tos = 1; ttl = 63; checksum = 77 }))
      []
      (record udp { checksum = 5 })
      (record bth { u32_1 = 0x120000ff })
      payload
    ≡ crc32_pkt mem (ip4 ip) [] udp bth payload
crc32_pkt_variant_example =
    crc32_pkt_variant mem ip [] udp bth payload 1 63 77 5 0x120000ff (omega arith) (omega arith)
      same_destqp

abbrev pkt : Netpkt
pkt = record {
  ethh = record { dmac = []; smac = []; type = 0 };
  view4 = ip;
  view6 = ipv6;
  udph = udp;
  bth = bth;
  icrc = 0;
  ip_len = 0;
  iovs = record { base = 50; len = 12 } ∷ payload;
}

ip-IsFresh : IsFresh ip
ip-IsFresh = record { no_checksum = refl; tos_fits = omega arith; id_fits = omega arith }

abbrev mac : List ℕ
mac = 2 ∷ 0 ∷ 0 ∷ 0 ∷ 0 ∷ 1 ∷ []

abbrev gid : List ℕ
gid = 0 ∷ 0 ∷ 0 ∷ 0 ∷ 0 ∷ 0 ∷ 0 ∷ 0 ∷ 0 ∷ 0 ∷ 255 ∷ 255 ∷ 10 ∷ 0 ∷ 0 ∷ 1 ∷ []

gid-EndsInBytes : EndsInBytes gid
gid-EndsInBytes = record {
  at_12 = omega arith;
  at_13 = omega arith;
  at_14 = omega arith;
  at_15 = omega arith;
}

netpkt_set4-Sent_example :
    (pkt' : Netpkt) × (netpkt_set4 mem pkt mac mac 64 gid gid 15 ≡ some pkt')
    × Sent mem gid gid 15 pkt'
netpkt_set4-Sent_example =
    netpkt_set4-Sent mem pkt mac mac 64 gid gid 15 ip-IsFresh (omega arith) gid-EndsInBytes
      gid-EndsInBytes (omega arith)
