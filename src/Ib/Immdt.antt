-- ===== src/Ib/Immdt.antt =====
-- include/spec/ib-spec.h: the immediate data extended transport header (`ib_immdt`). The four
-- bytes are the user's, in network order already: they are not swapped.
use libroce.Base.{ℕ}

pub record Immdt : Type 0 where
  pub immdt : ℕ

unfoldable pub get_immdt : Immdt → ℕ
get_immdt h = h.immdt

unfoldable pub set_immdt : Immdt → ℕ → Immdt
set_immdt h immdt = record h { immdt = immdt }
