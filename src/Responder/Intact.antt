-- ===== src/Responder/Intact.antt =====
-- What `roce_net_decap` lets through: packets that are whole, and the receiver's.
use libroce.Base.{
  ℕ, ◌+◌, ◌^◌, ◌<◌, ◌==◌, ltb, ◌≡◌, ◌⊎◌, inl, inr, refl, sym, ap, ap₂, ◌∙◌, subst, List, [], ◌∷◌,
  ◌++◌, none, some, true, false, ◌&&◌, if◌then◌else◌, length, take, arith,
}
use libroce.Word.{u32}
use libroce.Iov.{Iov, Taken, iov_len, advance, reverse_iovs}
use libroce.Iov.Span.{total}
use libroce.Iov.Advance.{Front}
use libroce.Net.Ethernet.{ethernet_ip, ethernet_ipv6}
use libroce.Net.Ethernet
use libroce.Net.Udp.{Udp, get_dport}
use libroce.Net.Udp
use libroce.Crc.Packet.{IpHeader, ip4, ip6, mask_bth, crc32_pkt}
use libroce.Port.{Port}
use libroce.Netpkt.Eth.{udp_dport}
use libroce.Responder.Wire.{ethernet_from, ip_from, ipv6_from, udp_from, bth_from, word32}
use libroce.Responder.Decap.{
  mac_matched, ihlbuf_size, Frame, masked, decap_icrc, decap_bth, checked_udp, decap_udp, ihllen,
  skip_options, decap_ip, decap_ethernet, net_decap,
}
use libroce.Responder.Cut.{
  Accepts, if-Accepts, unless-Accepts, same_number, either-Accepts, if_both, bind-Accepts, bytes_of,
  Cut, advance-Front_taken, front-Cut, header-Cut, length-bytes_of, length-Cut, reverse-Cut,
  iov_len-total,
}
use libroce.Responder.Whole.{Sealed, Carried, Ipv4, Ipv6, Intact}

mac_matched_lem : (src dst : List ℕ) → mac_matched src dst ≡ true → src ≡ dst
unfolding mac_matched
mac_matched_lem [] [] h = refl
mac_matched_lem [] (b ∷ dst) h = absurd cc
mac_matched_lem (a ∷ src) [] h = absurd cc
mac_matched_lem (a ∷ src) (b ∷ dst) h =
    elim (a == b) as (λ t. (t && mac_matched src dst) ≡ true → (t ≡ (a == b)) → a ∷ src ≡ b ∷ dst) [
      | true ↦ λ k e. ap₂ ◌∷◌ (ground arith) (mac_matched_lem src dst k)
      | false ↦ λ k e. absurd cc
    ]
      h refl

module _ (mem : ℕ → ℕ) where
  decap_icrc-Sealed :
      (ip : IpHeader) (ihlbuf : List ℕ) (udph : Udp) (iovs rest : List Iov) (bytes : List ℕ)
      (f : Frame)
      → Cut mem iovs 12 bytes rest
      → Accepts (decap_icrc mem ip ihlbuf udph (bth_from bytes) rest) f
      → Sealed mem ip ihlbuf udph iovs f
  unfolding decap_icrc
  decap_icrc-Sealed ip ihlbuf udph iovs rest bytes f (size, layout) h =
      let (t, e, h') = bind-Accepts (reverse_iovs mem rest 4) _ f h in
      let (full, same, k) =
        if_both (t.copied == 4)
          (crc32_pkt mem ip ihlbuf udph (bth_from bytes) t.iovs == word32 t.bytes 0) _ f h' in
      let made : record { ip = masked ip; bth = mask_bth (bth_from bytes); iovs = t.iovs } ≡ f =
        cc in
      let (size', layout') = reverse-Cut mem rest t e (ground arith) in
      subst (Sealed mem ip ihlbuf udph iovs) made (record {
        bth = bytes;
        icrc = t.bytes;
        bth_size = size;
        icrc_size = size';
        layout = layout ∙ ap (◌++◌ bytes) layout';
        checked = ground arith;
        frame = refl;
      })

  decap_bth-Sealed :
      (ip : IpHeader) (ihlbuf : List ℕ) (udph : Udp) (iovs : List Iov) (f : Frame)
      → Accepts (decap_bth mem ip ihlbuf udph iovs) f
      → Sealed mem ip ihlbuf udph iovs f
  unfolding decap_bth
  decap_bth-Sealed ip ihlbuf udph iovs f h =
      let (t, cut, h') = header-Cut mem iovs 12 _ f (omega arith) h in
      decap_icrc-Sealed ip ihlbuf udph iovs t.iovs t.bytes f cut h'

  checked_udp-Carried :
      (ip : IpHeader) (ihlbuf : List ℕ) (iovs rest : List Iov) (bytes : List ℕ) (f : Frame)
      → total iovs < 2 ^ 32
      → Cut mem iovs 8 bytes rest
      → Accepts (checked_udp mem ip ihlbuf (udp_from bytes) rest) f
      → Carried mem ip ihlbuf iovs f
  unfolding checked_udp
  checked_udp-Carried ip ihlbuf iovs rest bytes f small cut h =
      let (port, h') = unless-Accepts (get_dport (udp_from bytes) == udp_dport) _ f h in
      let (len, e, h'') = bind-Accepts (iov_len rest) _ f h' in
      let (same, k) = if-Accepts (Udp.get_length (udp_from bytes) == u32 (8 + len)) _ f h'' in
      record {
        udp = bytes;
        rest = rest;
        udp_size = cut.0;
        layout = cut.1;
        dport = ground arith;
        counted = ground (
          arith,
          iov_len-total mem rest len (omega (arith, length-Cut mem iovs 8 bytes rest cut)) e,
          length-Cut mem iovs 8 bytes rest cut,
          length-bytes_of mem iovs,
        );
        sealed = decap_bth-Sealed ip ihlbuf (udp_from bytes) rest f k;
      }

  decap_udp-Carried :
      (ip : IpHeader) (ihlbuf : List ℕ) (iovs : List Iov) (f : Frame)
      → total iovs < 2 ^ 32
      → Accepts (decap_udp mem ip ihlbuf iovs) f
      → Carried mem ip ihlbuf iovs f
  unfolding decap_udp
  decap_udp-Carried ip ihlbuf iovs f small h =
      let (t, cut, h') = header-Cut mem iovs 8 _ f (omega arith) h in
      checked_udp-Carried ip ihlbuf iovs t.iovs t.bytes f small cut h'

  length-Carried :
      (ip : IpHeader) (ihlbuf : List ℕ) (iovs : List Iov) (f : Frame)
      → Carried mem ip ihlbuf iovs f
      → 0 < total iovs
  length-Carried ip ihlbuf iovs f k =
      omega (arith, length-Cut mem iovs 8 k.udp k.rest (k.udp_size, k.layout))

  -- Behind the first twenty bytes of an IPv4 header.
  module _ (iovs : List Iov) (ip : List ℕ) (f : Frame) (size : length ip ≡ 20) where
    no_options :
        (rest : List Iov)
        → ihllen (ip_from ip) ≡ 0
        → bytes_of mem iovs ≡ ip ++ bytes_of mem rest
        → Carried mem (ip4 (ip_from ip)) [] rest f
        → Ipv4 mem iovs f
    no_options rest nothing layout k = record {
      ip = ip;
      options = [];
      rest = rest;
      ip_size = size;
      options_size = sym nothing;
      room = omega arith;
      layout = layout;
      carried = k;
    }

    some_options :
        (v : Iov) (vs : List Iov) (t : Taken)
        → bytes_of mem iovs ≡ ip ++ bytes_of mem (v ∷ vs)
        → Front mem (v ∷ vs) (ihllen (ip_from ip)) 0 t
        → ltb ihlbuf_size (length t.bytes) ≡ false
        → Carried mem (ip4 (ip_from ip)) t.bytes t.iovs f
        → Ipv4 mem iovs f
    some_options v vs t layout front room k =
        let (size', layout') = front-Cut mem v vs (ihllen (ip_from ip)) t front in
        let more = length-Cut mem (v ∷ vs) _ t.bytes t.iovs (size', layout') in
        record {
          ip = ip;
          options = t.bytes;
          rest = t.iovs;
          ip_size = size;
          options_size =
              omega (arith, more, length-Carried (ip4 (ip_from ip)) t.bytes t.iovs f k, size');
          room = ground arith;
          layout = layout ∙ ap (◌++◌ ip) layout';
          carried = k;
        }

    with_options :
        (rest : List Iov) (t : Taken)
        → total rest < 2 ^ 32
        → bytes_of mem iovs ≡ ip ++ bytes_of mem rest
        → advance mem rest (ihllen (ip_from ip)) ≡ some t
        → Accepts
            (if ltb ihlbuf_size (length t.bytes)
              then none
              else decap_udp mem (ip4 (ip_from ip)) t.bytes t.iovs)
            f
        → Ipv4 mem iovs f
    unfolding advance
    with_options [] t small layout e h = absurd cc
    with_options (v ∷ vs) t small layout e h =
        let front = advance-Front_taken mem v vs (ihllen (ip_from ip)) t (omega arith) e in
        let (size', layout') = front-Cut mem v vs (ihllen (ip_from ip)) t front in
        let less : total t.iovs < 2 ^ 32 =
          omega (arith, length-Cut mem (v ∷ vs) _ t.bytes t.iovs (size', layout')) in
        elim (either-Accepts (ltb ihlbuf_size (length t.bytes)) none _ f h) [
          | inl (over, stop) ↦ absurd cc
          | inr (room, k) ↦
              some_options v vs t layout front room
                (decap_udp-Carried (ip4 (ip_from ip)) t.bytes t.iovs f less k)
        ]

    skip_options-Ipv4 :
        (rest : List Iov)
        → total rest < 2 ^ 32
        → bytes_of mem iovs ≡ ip ++ bytes_of mem rest
        → Accepts (skip_options mem (ip_from ip) rest) f
        → Ipv4 mem iovs f
    unfolding skip_options
    skip_options-Ipv4 rest small layout h =
        elim (either-Accepts (ihllen (ip_from ip) == 0) _ _ f h) [
          | inl (nothing, k) ↦
              no_options rest (ground arith) layout
                (decap_udp-Carried (ip4 (ip_from ip)) [] rest f small k)
          | inr (options, k) ↦
              let (t, e, k') = bind-Accepts (advance mem rest (ihllen (ip_from ip))) _ f k in
              with_options rest t small layout e k'
        ]

  decap_ip_lem :
      (type : ℕ) (iovs : List Iov) (f : Frame)
      → total iovs < 2 ^ 32
      → Accepts (decap_ip mem type iovs) f
      → ((type ≡ ethernet_ip) × Ipv4 mem iovs f) ⊎ ((type ≡ ethernet_ipv6) × Ipv6 mem iovs f)
  unfolding decap_ip
  decap_ip_lem type iovs f small h = elim (either-Accepts (type == ethernet_ip) _ _ f h) [
    | inl (four, k) ↦
        let (t, cut, k') = header-Cut mem iovs 20 _ f (omega arith) k in
        inl (
          same_number type ethernet_ip four,
          skip_options-Ipv4 iovs t.bytes f (cut.0) t.iovs
              (omega (arith, length-Cut mem iovs 20 t.bytes t.iovs cut)) (cut.1) k',
        )
    | inr (other, k) ↦
        let (six, k') = if-Accepts (type == ethernet_ipv6) _ f k in
        let (t, cut, k'') = header-Cut mem iovs 40 _ f (omega arith) k' in
        inr (
          same_number type ethernet_ipv6 six,
          record {
            ip = t.bytes;
            rest = t.iovs;
            ip_size = cut.0;
            layout = cut.1;
            carried =
                decap_udp-Carried (ip6 (ipv6_from t.bytes)) [] t.iovs f
                  (omega (arith, length-Cut mem iovs 40 t.bytes t.iovs cut)) k'';
          },
        )
  ]

  -- `roce_net_decap` of a list of less than 4 GiB, for a port whose header in front of the frame
  -- has less than 4 GiB, lets a packet through only where it is all of this: the header in front;
  -- an Ethernet header to the port's address; an IPv4 header with as many bytes of options as it
  -- says, at most 60, or an IPv6 header; a UDP header to port 4791, whose length is that of itself
  -- and all that follows; the transport header; the rest, which is what it leaves; and four bytes
  -- at the end that are the checksum computed of all this. The headers that it leaves are those,
  -- masked.
  pub net_decap-Intact :
      (port : Port) (iovs : List Iov) (f : Frame)
      → port.vnet_hdr < 2 ^ 32
      → total iovs < 2 ^ 32
      → net_decap mem port iovs ≡ some (some f)
      → Intact mem port iovs f
  unfolding net_decap decap_ethernet ethernet_from
  net_decap-Intact port iovs f vnet small h =
      let (t, cut, h1) = header-Cut mem iovs port.vnet_hdr _ f vnet h in
      let (t', cut', h2) = header-Cut mem t.iovs 14 _ f (omega arith) h1 in
      let (mine, h3) = if-Accepts (mac_matched port.mac (take 6 t'.bytes)) _ f h2 in
      record {
        vnet = t.bytes;
        eth = t'.bytes;
        rest = t'.iovs;
        vnet_size = cut.0;
        eth_size = cut'.0;
        layout = cut.1 ∙ ap (◌++◌ t.bytes) (cut'.1);
        dmac = mac_matched_lem port.mac (take 6 t'.bytes) mine;
        ip =
            decap_ip_lem (Ethernet.get_type (ethernet_from t'.bytes)) t'.iovs f
              (omega (
                arith,
                length-Cut mem iovs port.vnet_hdr t.bytes t.iovs cut,
                length-Cut mem t.iovs 14 t'.bytes t'.iovs cut',
              ))
              h3;
      }
