-- ===== src/Ib/Ieth.antt =====
-- include/spec/ib-spec.h: the invalidate extended transport header (`ib_ieth`).
use libroce.Base.{ℕ, ◌^◌, ◌<◌, ◌≡◌}
use libroce.Word.{bswap32}
use libroce.Word.Swap.{bswap32-bswap32}

pub record Ieth : Type 0 where
  pub rkey : ℕ

unfoldable pub get_rkey : Ieth → ℕ
get_rkey h = bswap32 h.rkey

unfoldable pub set_rkey : Ieth → ℕ → Ieth
set_rkey h rkey = record h { rkey = bswap32 rkey }

pub get_rkey-set_rkey : (h : Ieth) (n : ℕ) → n < 2 ^ 32 → get_rkey (set_rkey h n) ≡ n
unfolding get_rkey set_rkey
get_rkey-set_rkey h n = bswap32-bswap32 n
