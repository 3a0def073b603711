-- ===== src/Net/Udp.antt =====
-- include/spec/udp-spec.h: the UDP header (`udp_hdr`), as the numbers that stand in memory. The
-- checksum is not swapped.
use libroce.Base.{ℕ}
use libroce.Word.{bswap16}

pub record Udp : Type 0 where
  pub sport : ℕ
  pub dport : ℕ
  pub length : ℕ
  pub checksum : ℕ

unfoldable pub get_sport : Udp → ℕ
get_sport h = bswap16 h.sport

unfoldable pub set_sport : Udp → ℕ → Udp
set_sport h sport = record h { sport = bswap16 sport }

unfoldable pub get_dport : Udp → ℕ
get_dport h = bswap16 h.dport

unfoldable pub set_dport : Udp → ℕ → Udp
set_dport h dport = record h { dport = bswap16 dport }

unfoldable pub get_length : Udp → ℕ
get_length h = bswap16 h.length

unfoldable pub set_length : Udp → ℕ → Udp
set_length h length = record h { length = bswap16 length }

unfoldable pub get_checksum : Udp → ℕ
get_checksum h = h.checksum

unfoldable pub set_checksum : Udp → ℕ → Udp
set_checksum h checksum = record h { checksum = checksum }
