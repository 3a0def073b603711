-- ===== src/Ib/Reth.antt =====
-- include/spec/ib-spec.h: the RDMA extended transport header (`ib_reth`).
use libroce.Base.{ℕ, ◌^◌, ◌<◌, ◌≡◌}
use libroce.Word.{bswap32, bswap64}
use libroce.Word.Swap.{bswap32-bswap32, bswap64-bswap64}

pub record Reth : Type 0 where
  pub va : ℕ
  pub rkey : ℕ
  pub dmalen : ℕ

unfoldable pub get_va : Reth → ℕ
get_va h = bswap64 h.va

unfoldable pub set_va : Reth → ℕ → Reth
set_va h va = record h { va = bswap64 va }

unfoldable pub get_rkey : Reth → ℕ
get_rkey h = bswap32 h.rkey

unfoldable pub set_rkey : Reth → ℕ → Reth
set_rkey h rkey = record h { rkey = bswap32 rkey }

unfoldable pub get_dmalen : Reth → ℕ
get_dmalen h = bswap32 h.dmalen

unfoldable pub set_dmalen : Reth → ℕ → Reth
set_dmalen h dmalen = record h { dmalen = bswap32 dmalen }

-- The header that the requester builds, with the three setters in a row.
abbrev pub filled : Reth → ℕ → ℕ → ℕ → Reth
filled h va rkey dmalen = set_dmalen (set_rkey (set_va h va) rkey) dmalen

-- What the three setters write, the getters read back, whatever stood there before, for values
-- that fit the fields.
pub reth_getters-filled :
    (h : Reth) (va rkey dmalen : ℕ)
    → va < 2 ^ 64
    → rkey < 2 ^ 32
    → dmalen < 2 ^ 32
    → (get_va (filled h va rkey dmalen) ≡ va)
      × (get_rkey (filled h va rkey dmalen) ≡ rkey)
      × (get_dmalen (filled h va rkey dmalen) ≡ dmalen)
unfolding get_va get_rkey get_dmalen set_va set_rkey set_dmalen
reth_getters-filled h va rkey dmalen hv hr hd =
    (bswap64-bswap64 va hv, bswap32-bswap32 rkey hr, bswap32-bswap32 dmalen hd)
