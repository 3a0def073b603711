-- ===== src/Responder/Decap.antt =====
-- responder.c: `roce_net_decap`, which takes the headers off a packet and tests its checksum.
-- `none` is a failed assertion, or a write past the end of `ihlbuf`. The list that a refused packet
-- leaves is not kept.
use libroce.Base.{
  ℕ, ◌+◌, ◌*◌, ◌==◌, ltb, List, [], ◌∷◌, Option, none, some, Bool, true, false, ◌&&◌, not,
  if◌then◌else◌, length, ◌>>=◌,
}
use libroce.Word.{u8, u32, sub32}
use libroce.Iov.{Iov, iov_len, advance, reverse_iovs}
use libroce.Net.Ethernet.{ethernet_ip, ethernet_ipv6}
use libroce.Net.Ethernet
use libroce.Net.Ip.{Ip, get_ihl}
use libroce.Net.Udp.{Udp, get_dport}
use libroce.Net.Udp
use libroce.Ib.Bth.{Bth}
use libroce.Crc.Packet.{IpHeader, ip4, ip6, mask_ip4, mask_ip6, mask_bth, crc32_pkt}
use libroce.Port.{Port}
use libroce.Netpkt.Eth.{udp_dport}
use libroce.Responder.Wire.{ethernet_from, ip_from, ipv6_from, udp_from, bth_from, word32}

-- `roce_mac_matched` on addresses of six bytes.
unfoldable pub mac_matched : List ℕ → List ℕ → Bool
mac_matched [] [] = true
mac_matched (a ∷ src) (b ∷ dst) = a == b && mac_matched src dst
mac_matched src dst = false

-- The bytes of `ihlbuf`.
abbrev pub ihlbuf_size : ℕ
ihlbuf_size = 60

-- What the call leaves: the headers as `roce_crc32_pkt` leaves them, and the list of the rest.
pub record Frame : Type 0 where
  pub ip : IpHeader
  pub bth : Bth
  pub iovs : List Iov

abbrev pub masked : IpHeader → IpHeader
masked (ip4 h) = ip4 (mask_ip4 h)
masked (ip6 h) = ip6 (mask_ip6 h)

-- A packet that is refused, always with -EPROTO.
abbrev pub refused : Option (Option Frame)
refused = some none

-- So many bytes from the front, and what follows them where there are as many.
unfoldable pub header :
    (ℕ → ℕ) → List Iov → ℕ → (List ℕ → List Iov → Option (Option Frame)) → Option (Option Frame)
unfolding advance
header mem iovs size next = do
  t ← advance mem iovs size
  if t.copied == size then next t.bytes t.iovs else refused

-- `ihllen`: the bytes behind the first twenty of the header, in eight bits.
abbrev pub ihllen : Ip → ℕ
ihllen h = u8 (sub32 (u32 (get_ihl h * 4)) 20)

module _ (mem : ℕ → ℕ) where
  -- The checksum at the end.
  unfoldable pub decap_icrc : IpHeader → List ℕ → Udp → Bth → List Iov → Option (Option Frame)
  unfolding reverse_iovs crc32_pkt mask_ip4 mask_ip6 mask_bth
  decap_icrc ip ihlbuf udph bth iovs = do
    t ← reverse_iovs mem iovs 4
    if t.copied == 4 && crc32_pkt mem ip ihlbuf udph bth t.iovs == word32 t.bytes 0
        then some (some (record { ip = masked ip; bth = mask_bth bth; iovs = t.iovs }))
        else refused

  unfoldable pub decap_bth : IpHeader → List ℕ → Udp → List Iov → Option (Option Frame)
  unfolding header bth_from decap_icrc
  decap_bth ip ihlbuf udph iovs =
      header mem iovs 12 (λ bytes rest. decap_icrc ip ihlbuf udph (bth_from bytes) rest)

  -- The port and the length; that of the list is counted in 32 bits.
  unfoldable pub checked_udp : IpHeader → List ℕ → Udp → List Iov → Option (Option Frame)
  unfolding get_dport Udp.get_length iov_len decap_bth
  checked_udp ip ihlbuf udph iovs = if not (get_dport udph == udp_dport) then refused else do
    len ← iov_len iovs
    if Udp.get_length udph == u32 (8 + len) then decap_bth ip ihlbuf udph iovs else refused

  unfoldable pub decap_udp : IpHeader → List ℕ → List Iov → Option (Option Frame)
  unfolding header udp_from checked_udp
  decap_udp ip ihlbuf iovs =
      header mem iovs 8 (λ bytes rest. checked_udp ip ihlbuf (udp_from bytes) rest)

  unfoldable pub skip_options : Ip → List Iov → Option (Option Frame)
  unfolding get_ihl advance decap_udp
  skip_options h iovs = if ihllen h == 0 then decap_udp (ip4 h) [] iovs else do
    t ← advance mem iovs (ihllen h)
    if ltb ihlbuf_size (length t.bytes) then none else decap_udp (ip4 h) t.bytes t.iovs

  unfoldable pub decap_ip : ℕ → List Iov → Option (Option Frame)
  unfolding header ip_from ipv6_from skip_options decap_udp
  decap_ip type iovs =
      if type == ethernet_ip
      then header mem iovs 20 (λ bytes rest. skip_options (ip_from bytes) rest)
      else if type == ethernet_ipv6
      then header mem iovs 40 (λ bytes rest. decap_udp (ip6 (ipv6_from bytes)) [] rest)
      else refused

  unfoldable pub decap_ethernet : List ℕ → List ℕ → List Iov → Option (Option Frame)
  unfolding ethernet_from mac_matched Ethernet.get_type decap_ip
  decap_ethernet mac bytes iovs =
      let ethh = ethernet_from bytes in
      if mac_matched mac ethh.dmac then decap_ip (Ethernet.get_type ethh) iovs else refused

  -- `roce_net_decap`, for the port with the address that the packet must have.
  unfoldable pub net_decap : Port → List Iov → Option (Option Frame)
  unfolding header decap_ethernet
  net_decap port iovs =
      header mem iovs port.vnet_hdr
        (λ _ rest. header mem rest 14 (λ bytes rest'. decap_ethernet port.mac bytes rest'))
