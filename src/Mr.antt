-- ===== src/Mr.antt =====
-- mr.c: memory regions, each of which holds a reference of its protection domain. `none` is a
-- failed assertion, or a read past the end of an array.
pub mod Access
pub mod Life
pub mod Map
use libroce.Base.{
  ℕ, zero, suc, ◌+◌, ◌-◌, ◌*◌, ◌/◌, ◌%◌, ◌^◌, List, [], ◌∷◌, Option, none, some, ℤ, pos, negsuc,
  einval, eacces, enotsup, ◌==◌, ltb, ◌||◌, ◌&&◌, not, Bool, true, false, update, if◌then◌else◌,
  bit_and,
}
use libroce.Word.{u32, ◌<<<◌, ◌>>>◌}
use libroce.Resource.{get}
use libroce.Counted.{Counted, enter, get_ref, put_ref, remove}
use libroce.Pd.{Pds, get_pd, put_pd_asserted}
use libroce.Iov.{Iov, iov_len}
use libroce.Sge.{power_of_2}

-- `roce_mr_type` and `roce_mr_state_t`.
pub data MrType : Type 0 where
  mem frmr dma max_type : MrType

pub data MrState : Type 0 where
  invalid free valid destroyed max_state : MrState

-- The fields of `roce_mr` behind its resource; `num_iov` is the length of `iovs`.
pub record Mr : Type 0 where
  pub mr_ctx : ℕ
  pub pd : ℕ
  pub state : MrState
  pub type : MrType
  pub iova : ℕ
  pub length : ℕ
  pub lkey : ℕ
  pub rkey : ℕ
  pub access : ℕ
  pub page_size : ℕ
  pub iovs : List Iov

-- The regions by address.
pub record Mrs : Type 0 where
  pub objects : Counted
  pub mr : ℕ → Mr

unfoldable pub key_to_index : ℕ → ℕ
key_to_index key = key >>> 8

-- `roce_new_key`, with what `random` returned.
unfoldable pub new_key : ℕ → ℕ → ℕ
new_key random index = u32 (index <<< 8) + random % 2 ^ 8

-- What a caller asks for.
pub record MrRequest : Type 0 where
  pub type : MrType
  pub iova : ℕ
  pub length : ℕ
  pub access : ℕ
  pub iovs : List Iov
  pub page_size : ℕ
  pub mr_ctx : ℕ

-- The switch on the type: an error, or the state of the new region.
unfoldable pub mr_state : ℕ → ℕ → ℕ → MrRequest → MrType → Option (ℤ × MrState)
unfolding iov_len
mr_state max_mr_size min_page page_size q mem = elim (iov_len q.iovs) [
  | none ↦ none
  | some n ↦
      if ltb max_mr_size n
      then some (einval, invalid)
      else if q.length == 0
      then some (einval, invalid)
      else some (pos 0, valid)
]
mr_state max_mr_size min_page page_size q frmr = elim q.iovs [
  | [] ↦
      if q.length == 0 || ltb q.length min_page || not (q.length % page_size == 0)
      then some (einval, invalid)
      else some (pos 0, free)
  | _ ↦ some (einval, invalid)
]
mr_state max_mr_size min_page page_size q dma = some (pos 0, valid)
mr_state max_mr_size min_page page_size q max_type = some (enotsup, invalid)

-- `roce_power_of_2` and the other test of a page size that is asked for.
unfoldable pub mr_page_size : ℕ → ℕ → Option ℕ
unfolding power_of_2
mr_page_size min_page page_size =
    if page_size == 0
    then some min_page
    else if ltb page_size min_page || not (power_of_2 page_size)
    then none
    else some page_size
