-- ===== src/Ib/Atomicacketh.antt =====
-- include/spec/ib-spec.h: the atomic acknowledge extended transport header (`ib_atomicacketh`).
use libroce.Base.{ℕ, ◌^◌, ◌<◌, ◌≡◌}
use libroce.Word.{bswap64}
use libroce.Word.Swap.{bswap64-bswap64}

pub record Atomicacketh : Type 0 where
  pub origmemdt : ℕ

unfoldable pub get_origmemdt : Atomicacketh → ℕ
get_origmemdt h = bswap64 h.origmemdt

unfoldable pub set_origmemdt : Atomicacketh → ℕ → Atomicacketh
set_origmemdt h origmemdt = record h { origmemdt = bswap64 origmemdt }

pub get_origmemdt-set_origmemdt :
    (h : Atomicacketh) (n : ℕ) → n < 2 ^ 64 → get_origmemdt (set_origmemdt h n) ≡ n
unfolding get_origmemdt set_origmemdt
get_origmemdt-set_origmemdt h n = bswap64-bswap64 n
