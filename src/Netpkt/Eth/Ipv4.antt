-- ===== src/Netpkt/Eth/Ipv4.antt =====
-- An outgoing IPv4 packet as its receiver reads it.
use Prim.{tt}
use libroce.Base.{
  ℕ, ◌+◌, ◌^◌, ◌<◌, ◌≡◌, refl, ap, ◌∙◌, List, [], ◌∷◌, ◌++◌, Option, none, some, arith, length,
  drop, take, subst,
}
use libroce.Word.{u16}
use libroce.Word.Swap.{bswap16-bswap16, bswap16-lt, bswap32-bswap32, bswap32-lt}
use libroce.Crc.Packet.{ip4, crc32_pkt}
use libroce.Net.Ip.{
  Ip, get_version, get_ihl, get_length, get_protocol, get_saddr, get_daddr, set_version_ihl,
  set_length, set_frag_off, set_ttl, set_protocol, set_saddr, set_daddr, set_checksum,
}
use libroce.Net.Udp.{Udp, get_dport, set_sport, set_dport}
use libroce.Net.Udp
use libroce.Net.Checksum.{checksum, AreWords, checksum-checksum}
use libroce.Netpkt.Eth.{
  Netpkt, ip_words, gid_to_ipv4, ip4_fields, udp_fields, udp_dport, netpkt_set4, finish4,
}
use libroce.Netpkt.Eth.Address.{EndsInBytes, address_of, gid_to_ipv4_lem}

-- What a fresh packet has: nothing in the checksum field, and numbers that fit.
pub record IsFresh (h : Ip) : Type 0 where
  pub no_checksum : h.checksum ≡ 0
  pub tos_fits : h.tos < 2 ^ 8
  pub id_fits : h.id < 2 ^ 16

ipv4-lt : (gid : List ℕ) → gid_to_ipv4 gid < 2 ^ 32
unfolding gid_to_ipv4
ipv4-lt gid = omega arith

module _ (h : Ip) (hop_limit : ℕ) (sgid dgid : List ℕ) (payload_len : ℕ) (f : IsFresh h)
    (hh : hop_limit < 2 ^ 8) where
  words : AreWords (ip_words (ip4_fields h hop_limit sgid dgid payload_len))
  unfolding ip4_fields set_version_ihl set_length set_frag_off set_ttl set_protocol set_saddr
      set_daddr
  words = (
    omega (arith, f.tos_fits),
    (
      bswap16-lt _,
      (
        f.id_fits,
        (
          bswap16-lt _,
          (
            omega arith,
            (
              omega (arith, f.no_checksum),
              (
                omega arith,
                (
                  omega (arith, bswap32-lt _ (ipv4-lt sgid)),
                  (omega arith, (omega (arith, bswap32-lt _ (ipv4-lt dgid)), tt)),
                ),
              ),
            ),
          ),
        ),
      ),
    ),
  )

-- The words around the checksum, before and behind it.
before : Ip → List ℕ
before h = take 5 (ip_words h)

behind : Ip → List ℕ
behind h = drop 6 (ip_words h)

ip_words-set_checksum : (h : Ip) (c : ℕ) → ip_words (set_checksum h c) ≡ before h ++ c ∷ behind h
unfolding set_checksum before behind
ip_words-set_checksum h c = refl

ip_words_lem : (h : Ip) → ip_words h ≡ before h ++ h.checksum ∷ behind h
unfolding before behind
ip_words_lem h = refl

ip4_fields-checksum :
    (h : Ip) (hop_limit : ℕ) (sgid dgid : List ℕ) (payload_len : ℕ)
    → (ip4_fields h hop_limit sgid dgid payload_len).checksum ≡ h.checksum
unfolding ip4_fields set_version_ihl set_length set_frag_off set_ttl set_protocol set_saddr
    set_daddr
ip4_fields-checksum h hop_limit sgid dgid payload_len = refl

-- The header checksum of a fresh packet: it is found, and a receiver's sum over the header is zero.
found :
    (h : Ip) (hop_limit : ℕ) (sgid dgid : List ℕ) (payload_len : ℕ)
    → IsFresh h
    → hop_limit < 2 ^ 8
    → let h' = ip4_fields h hop_limit sgid dgid payload_len in
      (c : ℕ) × (checksum (ip_words h') ≡ some c)
      × (checksum (ip_words (set_checksum h' c)) ≡ some 0)
found h hop_limit sgid dgid payload_len f hh =
    let h' : Ip = ip4_fields h hop_limit sgid dgid payload_len in
    let zeroed : ip_words h' ≡ before h' ++ 0 ∷ behind h' =
      ip_words_lem h'
      ∙ ap (λ n. before h' ++ n ∷ behind h')
          (ip4_fields-checksum h hop_limit sgid dgid payload_len ∙ f.no_checksum) in
    let r =
      checksum-checksum (before h') (behind h')
        (subst AreWords zeroed (words h hop_limit sgid dgid payload_len f hh))
        (subst (λ ws. length ws < 2 ^ 16) zeroed (omega arith)) in
    (r.0, ap checksum zeroed ∙ r.1, ap checksum (ip_words-set_checksum h' r.0) ∙ r.3)

-- What a receiver finds in a packet from `sgid` to `dgid`: the header's checksum right, version 4
-- with five words, UDP, the two addresses, the lengths with all headers and the invariant checksum
-- counted, the RoCE port, and the invariant checksum of the headers that are sent.
pub record Sent (mem : ℕ → ℕ) (sgid dgid : List ℕ) (payload_len : ℕ) (pkt : Netpkt) : Type 0 where
  pub sum : checksum (ip_words pkt.view4) ≡ some 0
  pub version : get_version pkt.view4 ≡ 4
  pub ihl : get_ihl pkt.view4 ≡ 5
  pub protocol : get_protocol pkt.view4 ≡ 17
  pub source : get_saddr pkt.view4 ≡ address_of sgid
  pub destination : get_daddr pkt.view4 ≡ address_of dgid
  pub ip_length : get_length pkt.view4 ≡ 32 + payload_len
  pub udp_length : Udp.get_length pkt.udph ≡ 12 + payload_len
  pub port : get_dport pkt.udph ≡ udp_dport
  pub invariant : pkt.icrc ≡ crc32_pkt mem (ip4 pkt.view4) [] pkt.udph pkt.bth (drop 1 pkt.iovs)

finish4-Sent :
    (mem : ℕ → ℕ) (pkt : Netpkt) (dmac smac : List ℕ) (hop_limit : ℕ) (sgid dgid : List ℕ)
    (payload_len c : ℕ)
    → EndsInBytes sgid
    → EndsInBytes dgid
    → payload_len + 32 < 2 ^ 16
    → checksum (ip_words (set_checksum (ip4_fields pkt.view4 hop_limit sgid dgid payload_len) c))
      ≡ some 0
    → Sent mem sgid dgid payload_len (
        finish4 mem pkt dmac smac
          (ip4_fields pkt.view4 hop_limit sgid dgid payload_len)
          (udp_fields pkt.udph payload_len)
          c)
unfolding finish4 ip4_fields udp_fields set_version_ihl set_length set_frag_off set_ttl set_protocol
    set_saddr set_daddr set_checksum get_version get_ihl get_protocol get_saddr get_daddr get_length
    get_dport set_sport set_dport Udp.set_length Udp.get_length
finish4-Sent mem pkt dmac smac hop_limit sgid dgid payload_len c src dst small e = record {
  sum = e;
  version = refl;
  ihl = refl;
  protocol = refl;
  source = bswap32-bswap32 _ (ipv4-lt sgid) ∙ gid_to_ipv4_lem sgid src;
  destination = bswap32-bswap32 _ (ipv4-lt dgid) ∙ gid_to_ipv4_lem dgid dst;
  ip_length = omega (arith, bswap16-bswap16 (u16 (20 + 8 + payload_len + 4)) (omega arith));
  udp_length = omega (arith, bswap16-bswap16 (u16 (8 + payload_len + 4)) (omega arith));
  port = bswap16-bswap16 udp_dport (omega arith);
  invariant = refl;
}

-- `roce_netpkt_set4` on a fresh packet, with identifiers of bytes and a payload that an IPv4 packet
-- can hold, ends, and a receiver finds in the packet what was sent: the header's checksum right,
-- version 4 with five words, UDP, the addresses of the four bytes from the twelfth on of the two
-- identifiers, the highest first, the lengths with all headers counted, the RoCE port, and the
-- invariant checksum of the headers that are sent.
pub netpkt_set4-Sent :
    (mem : ℕ → ℕ) (pkt : Netpkt) (dmac smac : List ℕ) (hop_limit : ℕ) (sgid dgid : List ℕ)
    (payload_len : ℕ)
    → IsFresh pkt.view4
    → hop_limit < 2 ^ 8
    → EndsInBytes sgid
    → EndsInBytes dgid
    → payload_len + 32 < 2 ^ 16
    → (pkt' : Netpkt) × (netpkt_set4 mem pkt dmac smac hop_limit sgid dgid payload_len ≡ some pkt')
      × Sent mem sgid dgid payload_len pkt'
unfolding netpkt_set4
netpkt_set4-Sent mem pkt dmac smac hop_limit sgid dgid payload_len f hh src dst small =
    let r = found pkt.view4 hop_limit sgid dgid payload_len f hh in
    (
      finish4 mem pkt dmac smac (ip4_fields pkt.view4 hop_limit sgid dgid payload_len)
          (udp_fields pkt.udph payload_len) r.0,
      ap
          (λ o. elim o as (λ x. Option Netpkt) [
            | none ↦ none
            | some c ↦ some (
                finish4 mem pkt dmac smac (ip4_fields pkt.view4 hop_limit sgid dgid payload_len)
                  (udp_fields pkt.udph payload_len) c)
          ])
          r.1,
      finish4-Sent mem pkt dmac smac hop_limit sgid dgid payload_len r.0 src dst small r.2,
    )
