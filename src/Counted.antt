-- ===== src/Counted.antt =====
-- Objects with a handle and a count of references: what pd.c, ah.c, cq.c, mr.c and qp.c each do
-- with the `roce_res` at the head of their objects. `none` is a failed assertion of
-- `roce_resource_get`.
pub mod Refs
pub mod Pointing
pub mod Takes
use libroce.Base.{
  ℕ, zero, ◌+◌, ◌-◌, ◌%◌, ◌^◌, Option, none, some, ℤ, pos, negsuc, einval, ebusy, enomem, ◌==◌,
  update, if◌then◌else◌,
}
use libroce.Word.{u32, sub32}
use libroce.Resource.{Resource, alloc, get, free}

-- The table, and the `ref` field of the objects by their address.
pub record Counted : Type 0 where
  pub table : Resource
  pub ref : ℕ → ℕ

-- What follows `roce_resource_alloc` on the object at `p`, which is all zeros before.
abbrev pub entered : Counted → ℕ → ℤ × Resource → ℤ × Counted
entered s p (pos i, t) = (pos i, record s { table = t; ref = update s.ref p 0 })
entered s p (negsuc e, t) = (negsuc e, s)

-- An object that `roce_calloc` has made at `p`, or the null pointer, is put in the table.
unfoldable pub enter : Counted → ℕ → ℤ × Counted
unfolding alloc
enter s p = if p == 0 then (enomem, s) else entered s p (alloc s.table p)

-- The object with a handle, or the null pointer, and one reference more.
unfoldable pub get_ref : Counted → ℕ → Option (ℕ × Counted)
unfolding get
get_ref s h = elim (get s.table h) [
  | none ↦ none
  | some p ↦
      if p == 0
      then some (0, s)
      else some (p, record s { ref = update s.ref p (u32 (s.ref p + 1)) })
]

unfoldable pub put_ref : Counted → ℕ → Option (ℤ × Counted)
unfolding get
put_ref s h = elim (get s.table h) [
  | none ↦ none
  | some p ↦
      if p == 0
      then some (einval, s)
      else some (pos 0, record s { ref = update s.ref p (sub32 (s.ref p) 1) })
]

-- What follows `roce_resource_free`.
abbrev pub left : Counted → ℤ × Resource → ℤ × Counted
left s (pos zero, t) = (pos 0, record s { table = t })
left s (ret, t) = (ret, s)

-- An object that no reference holds is taken out of the table.
unfoldable pub remove : Counted → ℕ → Option (ℤ × Counted)
unfolding get free
remove s h = elim (get s.table h) [
  | none ↦ none
  | some p ↦
      if p == 0
      then some (einval, s)
      else if s.ref p == 0
      then some (left s (free s.table h))
      else some (ebusy, s)
]
