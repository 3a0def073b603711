-- ===== src/Resource.antt =====
-- resource.c: a table of pointers to objects of one kind, found by their handle, which is the index
-- of their slot. A pointer is a number, 0 the null pointer. The lock of the table is held over each
-- operation, which stands as one step.
pub mod Slots
pub mod Contract
pub mod Steps
pub mod Placed
use libroce.Base.{
  ℕ, zero, suc, ◌+◌, ◌^◌, List, [], ◌∷◌, Option, none, some, ℤ, pos, einval, ebusy, enomem, get_or,
  set, replicate, ◌==◌, ltb, leb, ◌||◌, Bool, true, false, if◌then◌else◌,
}

-- `struct roce_resource`, its slots, and the `handle` field of the objects by their address. A null
-- `addr` is the empty list.
pub record Resource : Type 0 where
  pub size : ℕ
  pub addr : List ℕ
  pub handle : ℕ → ℕ

-- `ROCE_MAX_GENERAL`.
abbrev pub max_general : ℕ
max_general = 16777216

-- `roce_resource_init`, with what `roce_spin_init` returned and whether `roce_calloc` got memory.
unfoldable pub init : Resource → ℕ → ℤ → Bool → ℤ × Resource
init r size lock_ret memory =
    if size == 0 || ltb max_general size then (einval, r) else elim lock_ret [
      | pos zero ↦
          if memory
          then (pos 0, record r { size = size; addr = replicate size 0 })
          else (enomem, record r { size = size; addr = [] })
      | ret ↦ (ret, r)
    ]

-- `res->handle = i`.
abbrev pub write : (ℕ → ℕ) → ℕ → ℕ → ℕ → ℕ
write handle res i p = if p == res then i else handle p

-- The loop of `roce_resource_alloc` from slot `i` on, with `left` slots to go.
unfoldable pub first_free : ℕ → ℕ → List ℕ → Option ℕ
first_free zero i addr = none
first_free (suc left) i addr =
    let later = first_free left (i + 1) addr in if get_or addr i 0 == 0 then some i else later

abbrev pub put : Resource → ℕ → ℕ → Resource
put r res i = record r { addr = set r.addr i res; handle = write r.handle res i }

unfoldable pub alloc : Resource → ℕ → ℤ × Resource
unfolding first_free
alloc r res =
    if res == 0
    then (einval, r)
    else elim (first_free r.size 0 r.addr) [ none ↦ (ebusy, r) | some i ↦ (pos i, put r res i) ]

unfoldable pub alloc_at : Resource → ℕ → ℕ → ℤ × Resource
alloc_at r res index =
    if res == 0
    then (einval, r)
    else if leb r.size index
    then (einval, r)
    else if get_or r.addr index 0 == 0
    then (pos index, put r res index)
    else (ebusy, r)

-- The pointer returned, or `none` where the assertion on its handle fails.
unfoldable pub get : Resource → ℕ → Option ℕ
get r index =
    if leb r.size index
    then some 0
    else if get_or r.addr index 0 == 0
    then some 0
    else if r.handle (get_or r.addr index 0) == index
    then some (get_or r.addr index 0)
    else none

unfoldable pub free : Resource → ℕ → ℤ × Resource
free r index =
    if leb r.size index
    then (einval, r)
    else if get_or r.addr index 0 == 0
    then (einval, r)
    else (pos 0, record r { addr = set r.addr index 0 })
