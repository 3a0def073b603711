-- ===== src/Net.antt =====
-- The headers below the transport: include/spec/ip-spec.h, ipv6-spec.h, udp-spec.h and
-- ethernet-spec.h, and the checksum of include/private/checksum.h.
pub mod Ip
pub mod Ipv6
pub mod Udp
pub mod Ethernet
pub mod Checksum
