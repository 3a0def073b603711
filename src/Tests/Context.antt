-- ===== src/Tests/Context.antt =====
-- A caller that brings the four callbacks and no family of functions.
use libroce.Base.{◌≡◌, refl, some, none, true, arith}
use libroce.Sge.{power_of_2}
use libroce.Context.{null, given, pthread_spin_trylock, CtxPara, new_ctx}
use libroce.Context.Families.{IsComplete, IsWhole}
use libroce.Context.Chosen.{new_ctx-IsComplete}

abbrev para : CtxPara
para = record {
  version = 1;
  page_size = 4096;
  net_xmit = given;
  cq_comp = given;
  dma_map = given;
  dma_unmap = given;
  malloc = null;
  free = null;
  calloc = null;
  realloc = null;
  lock_size = 0;
  init = null;
  lock = null;
  trylock = null;
  unlock = null;
}

-- The default for `lock` returns where the lock is taken.
lock_of_default : (c : CtxPara) × (new_ctx 4 true para ≡ some c) × (c.lock ≡ pthread_spin_trylock)
unfolding new_ctx power_of_2
lock_of_default = (_, refl, refl)

-- One of the memory functions alone.
one_alone : new_ctx 4 true (record para { malloc = given }) ≡ none
unfolding new_ctx power_of_2
one_alone = refl

new_ctx-IsComplete_example :
    ((c : CtxPara) → new_ctx 4 true para ≡ some c → IsComplete c × IsWhole para c)
    × (IsComplete para → new_ctx 4 true para ≡ some para)
new_ctx-IsComplete_example = new_ctx-IsComplete 4 true para (omega arith)
