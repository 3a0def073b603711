-- ===== src/Net/Ethernet.antt =====
-- include/spec/ethernet-spec.h: the Ethernet header (`ethernet_hdr`). An address is its six bytes.
use libroce.Base.{ℕ, List}
use libroce.Word.{bswap16}

pub record Ethernet : Type 0 where
  pub dmac : List ℕ
  pub smac : List ℕ
  pub type : ℕ

-- `ETHERNET_IP` and `ETHERNET_IPv6`.
abbrev pub ethernet_ip : ℕ
ethernet_ip = 0x0800

abbrev pub ethernet_ipv6 : ℕ
ethernet_ipv6 = 0x86dd

unfoldable pub set : Ethernet → List ℕ → List ℕ → ℕ → Ethernet
set h dmac smac type = record h { dmac = dmac; smac = smac; type = bswap16 type }

unfoldable pub set4 : Ethernet → List ℕ → List ℕ → Ethernet
unfolding set
set4 h dmac smac = set h dmac smac ethernet_ip

unfoldable pub set6 : Ethernet → List ℕ → List ℕ → Ethernet
unfolding set
set6 h dmac smac = set h dmac smac ethernet_ipv6

unfoldable pub get_type : Ethernet → ℕ
get_type h = bswap16 h.type
