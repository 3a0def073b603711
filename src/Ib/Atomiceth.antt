-- ===== src/Ib/Atomiceth.antt =====
-- include/spec/ib-spec.h: the atomic extended transport header (`ib_atomiceth`).
use libroce.Base.{ℕ, ◌^◌, ◌<◌, ◌≡◌}
use libroce.Word.{bswap32, bswap64}
use libroce.Word.Swap.{bswap32-bswap32, bswap64-bswap64}

pub record Atomiceth : Type 0 where
  pub va : ℕ
  pub rkey : ℕ
  pub swapdt : ℕ
  pub cmpdt : ℕ

unfoldable pub get_va : Atomiceth → ℕ
get_va h = bswap64 h.va

unfoldable pub set_va : Atomiceth → ℕ → Atomiceth
set_va h va = record h { va = bswap64 va }

unfoldable pub get_rkey : Atomiceth → ℕ
get_rkey h = bswap32 h.rkey

unfoldable pub set_rkey : Atomiceth → ℕ → Atomiceth
set_rkey h rkey = record h { rkey = bswap32 rkey }

unfoldable pub get_swapdt : Atomiceth → ℕ
get_swapdt h = bswap64 h.swapdt

unfoldable pub set_swapdt : Atomiceth → ℕ → Atomiceth
set_swapdt h swapdt = record h { swapdt = bswap64 swapdt }

unfoldable pub get_cmpdt : Atomiceth → ℕ
get_cmpdt h = bswap64 h.cmpdt

unfoldable pub set_cmpdt : Atomiceth → ℕ → Atomiceth
set_cmpdt h cmpdt = record h { cmpdt = bswap64 cmpdt }

-- What the four setters write in a row, the getters read back, for values that fit the fields.
pub getters-setters :
    (h : Atomiceth) (va rkey swapdt cmpdt : ℕ)
    → va < 2 ^ 64
    → rkey < 2 ^ 32
    → swapdt < 2 ^ 64
    → cmpdt < 2 ^ 64
    → let h' = set_cmpdt (set_swapdt (set_rkey (set_va h va) rkey) swapdt) cmpdt in
      (get_va h' ≡ va) × (get_rkey h' ≡ rkey) × (get_swapdt h' ≡ swapdt) × (get_cmpdt h' ≡ cmpdt)
unfolding get_va get_rkey get_swapdt get_cmpdt set_va set_rkey set_swapdt set_cmpdt
getters-setters h va rkey swapdt cmpdt hv hr hs hc = (
  bswap64-bswap64 va hv,
  bswap32-bswap32 rkey hr,
  bswap64-bswap64 swapdt hs,
  bswap64-bswap64 cmpdt hc,
)
