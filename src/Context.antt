-- ===== src/Context.antt =====
-- ctx.c: what `roce_new_ctx` asks of its parameters, and the functions that it puts where the
-- caller has none. A function pointer is what is known of it: null, the caller's, or one of the
-- libraries that the default is taken from.
pub mod Families
pub mod Chosen
use libroce.Base.{
  ℕ, ◌+◌, ◌==◌, Option, none, some, Bool, true, false, ◌&&◌, ◌||◌, not, if◌then◌else◌,
}
use libroce.Sge.{power_of_2}

pub data Function : Type 0 where
  null given libc pthread_spin_init pthread_spin_trylock pthread_spin_unlock : Function

-- `roce_ctx_para` without the opaque pointer and the log.
pub record CtxPara : Type 0 where
  pub version : ℕ
  pub page_size : ℕ
  pub net_xmit : Function
  pub cq_comp : Function
  pub dma_map : Function
  pub dma_unmap : Function
  pub malloc : Function
  pub free : Function
  pub calloc : Function
  pub realloc : Function
  pub lock_size : ℕ
  pub init : Function
  pub lock : Function
  pub trylock : Function
  pub unlock : Function

-- `ROCE_V2`.
abbrev pub roce_v2 : ℕ
roce_v2 = 1

-- `!!f`.
abbrev pub is_set : Function → ℕ
is_set null = 0
is_set f = 1

-- `!!n`.
abbrev pub is_nonzero : ℕ → ℕ
is_nonzero n = if n == 0 then 0 else 1

-- The sums of the two families of functions that must be set together.
unfoldable pub mm_count : CtxPara → ℕ
mm_count p = is_set p.malloc + is_set p.free + is_set p.calloc + is_set p.realloc

unfoldable pub spin_count : CtxPara → ℕ
spin_count p =
    is_nonzero p.lock_size + is_set p.init + is_set p.lock + is_set p.trylock + is_set p.unlock

-- The tests in their order, each of which returns null.
unfoldable pub is_valid_para : CtxPara → Bool
unfolding power_of_2 mm_count spin_count
is_valid_para p =
    p.version == roce_v2
    && power_of_2 p.page_size
    && not (is_set p.net_xmit == 0)
    && not (is_set p.cq_comp == 0)
    && not (is_set p.dma_map == 0 || is_set p.dma_unmap == 0)
    && (mm_count p == 0 || mm_count p == 4)
    && (spin_count p == 0 || spin_count p == 5)

-- The defaults, with the size of a `pthread_spinlock_t`.
unfoldable pub with_mm : CtxPara → CtxPara
with_mm p =
    if is_set p.malloc == 0
    then record p { malloc = libc; free = libc; calloc = libc; realloc = libc }
    else p

unfoldable pub with_spin : ℕ → CtxPara → CtxPara
with_spin size p =
    if p.lock_size == 0
    then record p {
      lock_size = size;
      init = pthread_spin_init;
      lock = pthread_spin_trylock;
      trylock = pthread_spin_trylock;
      unlock = pthread_spin_unlock;
    }
    else p

-- `roce_new_ctx`, with whether `calloc` gets memory: the parameters in the context, or the null
-- pointer.
unfoldable pub new_ctx : ℕ → Bool → CtxPara → Option CtxPara
unfolding is_valid_para with_mm with_spin
new_ctx size memory p =
    if is_valid_para p && memory then some (with_spin size (with_mm p)) else none
