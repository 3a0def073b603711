-- ===== src/Netpkt/Eth.antt =====
-- netpkt.c: `roce_netpkt_set_eth` with `roce_netpkt_set4` and `roce_netpkt_set6`, which fill in the
-- headers below the transport and the invariant checksum; and the addresses of util.h.
pub mod Address
pub mod Ipv4
use libroce.Base.{
  ℕ, ◌+◌, ◌*◌, ◌/◌, ◌%◌, ◌^◌, List, [], ◌∷◌, Option, none, some, bit_or, Bool, true, false, ◌&&◌,
  ◌==◌, get_or, drop, if◌then◌else◌,
}
use libroce.Word.{u16, u32, ◌<<<◌}
use libroce.Iov.{Iov, iov_len}
use libroce.Crc.Packet.{ip4, ip6, crc32_pkt}
use libroce.Net.Ip.{
  Ip, set_version_ihl, set_length, set_frag_off, set_ttl, set_protocol, set_saddr, set_daddr,
  set_checksum,
}
use libroce.Net.Ipv6.{Ipv6, set_version_tc_fl, set_payload_len, set_nexthdr, set_hop_limit}
use libroce.Net.Ipv6
use libroce.Net.Udp.{Udp, set_sport, set_dport}
use libroce.Net.Udp
use libroce.Net.Ethernet.{Ethernet, set4, set6}
use libroce.Net.Checksum.{checksum}
use libroce.Ib.Bth.{Bth}

-- `struct roce_netpkt`. Its IP header is a union: a call writes one of the two views, and only that
-- one is read. `iovs` are the entries from ROCE_NETPKT_BTH on but the last, and `ip_len` the length
-- of the entry ROCE_NETPKT_IPHDR.
pub record Netpkt : Type 0 where
  pub ethh : Ethernet
  pub view4 : Ip
  pub view6 : Ipv6
  pub udph : Udp
  pub bth : Bth
  pub icrc : ℕ
  pub ip_len : ℕ
  pub iovs : List Iov

-- `ROCE_V2_UDP_DPORT`.
abbrev pub udp_dport : ℕ
udp_dport = 4791

-- The words of the header at an even address, as the host reads them.
abbrev pub ip_words : Ip → List ℕ
ip_words h =
    (h.u8_0 + 256 * h.tos)
    ∷ h.length
    ∷ h.id
    ∷ h.frag_off
    ∷ (h.ttl + 256 * h.protocol)
    ∷ h.checksum
    ∷ (h.saddr % 2 ^ 16)
    ∷ (h.saddr / 2 ^ 16)
    ∷ (h.daddr % 2 ^ 16)
    ∷ (h.daddr / 2 ^ 16)
    ∷ []

-- `roce_gid_is_ipv4`.
unfoldable pub gid_is_ipv4 : List ℕ → Bool
gid_is_ipv4 gid =
    get_or gid 0 0 == 0
    && get_or gid 1 0 == 0
    && get_or gid 2 0 == 0
    && get_or gid 3 0 == 0
    && get_or gid 4 0 == 0
    && get_or gid 5 0 == 0
    && get_or gid 6 0 == 0
    && get_or gid 7 0 == 0
    && get_or gid 8 0 == 0
    && get_or gid 9 0 == 0
    && get_or gid 10 0 == 0xff
    && get_or gid 11 0 == 0xff

-- `roce_gid_to_ipv4`.
unfoldable pub gid_to_ipv4 : List ℕ → ℕ
gid_to_ipv4 gid = u32 (
    bit_or
      (bit_or (bit_or (get_or gid 12 0 <<< 24) (get_or gid 13 0 <<< 16)) (get_or gid 14 0 <<< 8))
      (get_or gid 15 0))

-- The IPv4 header before its checksum.
unfoldable pub ip4_fields : Ip → ℕ → List ℕ → List ℕ → ℕ → Ip
unfolding gid_to_ipv4 set_version_ihl set_length set_frag_off set_ttl set_protocol set_saddr
    set_daddr
ip4_fields h hop_limit sgid dgid payload_len =
    let h = set_version_ihl h 4 5 in
    let h = set_length h (u16 (20 + 8 + payload_len + 4)) in
    let h = set_frag_off h true false 0 in
    let h = set_ttl h hop_limit in
    let h = set_protocol h 17 in
    let h = set_saddr h (gid_to_ipv4 sgid) in set_daddr h (gid_to_ipv4 dgid)

unfoldable pub udp_fields : Udp → ℕ → Udp
unfolding set_sport set_dport Udp.set_length
udp_fields u payload_len =
    Udp.set_length (set_dport (set_sport u udp_dport) udp_dport) (u16 (8 + payload_len + 4))

-- `roce_netpkt_set4` once it has the header's checksum.
unfoldable pub finish4 : (ℕ → ℕ) → Netpkt → List ℕ → List ℕ → Ip → Udp → ℕ → Netpkt
unfolding set4 set_checksum crc32_pkt
finish4 mem pkt dmac smac h u c =
    let h' = set_checksum h c in
    record pkt {
      ethh = set4 pkt.ethh dmac smac;
      view4 = h';
      udph = u;
      icrc = crc32_pkt mem (ip4 h') [] u pkt.bth (drop 1 pkt.iovs);
      ip_len = 20;
    }

-- `roce_netpkt_set4`; `payload_len` is cut to 16 digits by its type. `none` would be a checksum
-- that is still folding its carries when its fuel ends.
unfoldable pub netpkt_set4 :
    (ℕ → ℕ) → Netpkt → List ℕ → List ℕ → ℕ → List ℕ → List ℕ → ℕ → Option Netpkt
unfolding ip4_fields udp_fields checksum finish4
netpkt_set4 mem pkt dmac smac hop_limit sgid dgid payload_len =
    let h = ip4_fields pkt.view4 hop_limit sgid dgid payload_len in
    let u = udp_fields pkt.udph payload_len in
    elim (checksum (ip_words h)) [ none ↦ none | some c ↦ some (finish4 mem pkt dmac smac h u c) ]

-- `roce_netpkt_set6`.
unfoldable pub netpkt_set6 :
    (ℕ → ℕ) → Netpkt → List ℕ → List ℕ → ℕ → ℕ → List ℕ → List ℕ → ℕ → Netpkt
unfolding udp_fields set6 crc32_pkt set_version_tc_fl set_payload_len set_nexthdr set_hop_limit
    Ipv6.set_saddr Ipv6.set_daddr
netpkt_set6 mem pkt dmac smac hop_limit tclass sgid dgid payload_len =
    let h = set_version_tc_fl pkt.view6 6 tclass 0 in
    let h = set_payload_len h (u16 (8 + payload_len + 4)) in
    let h = set_hop_limit (set_nexthdr h 17) hop_limit in
    let h = Ipv6.set_daddr (Ipv6.set_saddr h sgid) dgid in
    let u = udp_fields pkt.udph payload_len in
    record pkt {
      ethh = set6 pkt.ethh dmac smac;
      view6 = h;
      udph = u;
      icrc = crc32_pkt mem (ip6 h) [] u pkt.bth (drop 1 pkt.iovs);
      ip_len = 40;
    }

-- `roce_netpkt_set_eth`, with the port's address and identifier, and those of the destination.
unfoldable pub set_eth :
    (ℕ → ℕ) → Netpkt → List ℕ → List ℕ → List ℕ → List ℕ → ℕ → ℕ → Option Netpkt
unfolding gid_is_ipv4 netpkt_set4 netpkt_set6 iov_len
set_eth mem pkt smac sgid dmac dgid hop_limit tclass = elim (iov_len pkt.iovs) [
  | none ↦ none
  | some payload_len ↦
      if gid_is_ipv4 dgid
      then netpkt_set4 mem pkt dmac smac hop_limit sgid dgid (u16 payload_len)
      else some (netpkt_set6 mem pkt dmac smac hop_limit tclass sgid dgid (u16 payload_len))
]
