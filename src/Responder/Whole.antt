-- ===== src/Responder/Whole.antt =====
-- What a packet is made of that `roce_net_decap` may let through.
use libroce.Base.{ℕ, ◌≤◌, ◌≡◌, ◌⊎◌, List, [], ◌++◌, length, take}
use libroce.Iov.{Iov}
use libroce.Net.Ethernet.{ethernet_ip, ethernet_ipv6}
use libroce.Net.Ethernet
use libroce.Net.Udp.{Udp, get_dport}
use libroce.Net.Udp
use libroce.Crc.Packet.{IpHeader, ip4, ip6, mask_bth, crc32_pkt}
use libroce.Port.{Port}
use libroce.Responder.Wire.{ethernet_from, ip_from, ipv6_from, udp_from, bth_from, word32}
use libroce.Responder.Decap.{ihlbuf_size, Frame, masked, ihllen}
use libroce.Responder.Cut.{bytes_of}

module _ (mem : ℕ → ℕ) where
  -- From the transport header on, behind the headers given: the checksum is the one that is
  -- computed, and the frame is what is left.
  pub record Sealed (ip : IpHeader) (ihlbuf : List ℕ) (udph : Udp) (iovs : List Iov) (f : Frame)
      : Type 0 where
    pub bth : List ℕ
    pub icrc : List ℕ
    pub bth_size : length bth ≡ 12
    pub icrc_size : length icrc ≡ 4
    pub layout : bytes_of mem iovs ≡ bth ++ (bytes_of mem f.iovs ++ icrc)
    pub checked : crc32_pkt mem ip ihlbuf udph (bth_from bth) f.iovs ≡ word32 icrc 0
    pub frame : f ≡ record { ip = masked ip; bth = mask_bth (bth_from bth); iovs = f.iovs }

  -- From the UDP header on: the port is the protocol's, and the length that of all this.
  pub record Carried (ip : IpHeader) (ihlbuf : List ℕ) (iovs : List Iov) (f : Frame) : Type 0 where
    pub udp : List ℕ
    pub rest : List Iov
    pub udp_size : length udp ≡ 8
    pub layout : bytes_of mem iovs ≡ udp ++ bytes_of mem rest
    pub dport : get_dport (udp_from udp) ≡ 4791
    pub counted : Udp.get_length (udp_from udp) ≡ length (bytes_of mem iovs)
    pub sealed : Sealed ip ihlbuf (udp_from udp) rest f

  -- An IPv4 header with so many bytes of options as it says, no more than there is room for.
  pub record Ipv4 (iovs : List Iov) (f : Frame) : Type 0 where
    pub ip : List ℕ
    pub options : List ℕ
    pub rest : List Iov
    pub ip_size : length ip ≡ 20
    pub options_size : length options ≡ ihllen (ip_from ip)
    pub room : length options ≤ ihlbuf_size
    pub layout : bytes_of mem iovs ≡ ip ++ (options ++ bytes_of mem rest)
    pub carried : Carried (ip4 (ip_from ip)) options rest f

  pub record Ipv6 (iovs : List Iov) (f : Frame) : Type 0 where
    pub ip : List ℕ
    pub rest : List Iov
    pub ip_size : length ip ≡ 40
    pub layout : bytes_of mem iovs ≡ ip ++ bytes_of mem rest
    pub carried : Carried (ip6 (ipv6_from ip)) [] rest f

  -- All of it, for the port.
  pub record Intact (port : Port) (iovs : List Iov) (f : Frame) : Type 0 where
    pub vnet : List ℕ
    pub eth : List ℕ
    pub rest : List Iov
    pub vnet_size : length vnet ≡ port.vnet_hdr
    pub eth_size : length eth ≡ 14
    pub layout : bytes_of mem iovs ≡ vnet ++ (eth ++ bytes_of mem rest)
    pub dmac : port.mac ≡ take 6 eth
    pub ip :
        ((Ethernet.get_type (ethernet_from eth) ≡ ethernet_ip) × Ipv4 rest f)
        ⊎ ((Ethernet.get_type (ethernet_from eth) ≡ ethernet_ipv6) × Ipv6 rest f)
