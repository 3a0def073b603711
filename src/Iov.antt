-- ===== src/Iov.antt =====
-- include/private/iov-helper.h: scatter lists. An entry is an address and a length; a list is the
-- array with its count. `none` stands for a failed `assert` of a non-empty array.
pub mod Span
pub mod Copy
pub mod Advance
pub mod Reverse
use libroce.Base.{
  ℕ, zero, suc, ◌+◌, ◌-◌, ◌*◌, ◌/◌, ◌%◌, ◌^◌, ◌≡◌, List, [], ◌∷◌, ◌++◌, Option, none, some, ltb,
  ◌==◌, if◌then◌else◌, map,
}
use mathlib.Core.List.{reverse}
use libroce.Word.{u32, sub32}

-- `struct iovec`; the null pointer is 0.
pub record Iov : Type 0 where
  pub base : ℕ
  pub len : ℕ

abbrev pub empty : Iov
empty = record { base = 0; len = 0 }

-- The addresses from `base` on.
abbrev pub addresses : ℕ → ℕ → List ℕ
addresses b zero = []
addresses b (suc n) = b ∷ addresses (b + 1) n

-- `total += iov->iov_len`, in 32 bits.
unfoldable pub len_from : ℕ → List Iov → ℕ
len_from total [] = total
len_from total (v ∷ vs) = len_from (u32 (total + v.len)) vs

unfoldable pub iov_len : List Iov → Option ℕ
unfolding len_from
iov_len [] = none
iov_len (v ∷ vs) = some (len_from 0 (v ∷ vs))

-- `ROCE_MIN`.
abbrev pub roce_min : ℕ → ℕ → ℕ
roce_min x y = if ltb y x then y else x

-- `roce_iov_copy`, the loop that skips `offset` bytes: the entry that holds the first byte wanted,
-- what is left to skip in it, and the entries behind it.
unfoldable pub skip : List Iov → ℕ → Option (Iov × ℕ × List Iov)
skip [] offset = none
skip (v ∷ vs) offset =
    if ltb offset v.len then some (v, offset, vs) else skip vs (sub32 offset v.len)

-- The loop over the remaining entries: those that it writes, and what `roce_iov_copy` returns.
unfoldable pub copy_rest : List Iov → ℕ → ℕ → List Iov × ℕ
copy_rest [] bytes dst_num_iov = ([], u32 (dst_num_iov + 1))
copy_rest (v ∷ vs) bytes dst_num_iov =
    let n = roce_min v.len bytes in
    let left = sub32 bytes n in
    let rest = copy_rest vs left (u32 (dst_num_iov + 1)) in
    if left == 0
    then (record { base = v.base; len = n } ∷ [], u32 (dst_num_iov + 1))
    else (record { base = v.base; len = n } ∷ rest.0, rest.1)

-- From the entry in which the skipping ended.
unfoldable pub copy_from : Iov → ℕ → List Iov → ℕ → List Iov × ℕ
unfolding copy_rest
copy_from v offset vs bytes =
    let n = roce_min (v.len - offset) bytes in
    let left = sub32 bytes n in
    let rest = copy_rest vs left 1 in
    if left == 0
    then (record { base = v.base + offset; len = n } ∷ [], 1)
    else (record { base = v.base + offset; len = n } ∷ rest.0, rest.1)

-- The entries written to `dst_iovs`, and the count returned.
unfoldable pub copy : List Iov → ℕ → ℕ → Option (List Iov × ℕ)
unfolding skip copy_from
copy [] offset bytes = none
copy (v ∷ vs) offset bytes = if bytes == 0 then some ([], 0) else elim (skip (v ∷ vs) offset) [
  | none ↦ some ([], 0)
  | some (w, left, ws) ↦ some (copy_from w left ws bytes)
]

-- What `roce_iov_advance` and `roce_iov_reverse` leave: the count returned, the array, and the
-- bytes copied to a buffer that is not null.
pub record Taken : Type 0 where
  pub copied : ℕ
  pub iovs : List Iov
  pub bytes : List ℕ

module _ (mem : ℕ → ℕ) where
  -- `memcpy` of `n` bytes at `b`.
  abbrev pub read : ℕ → ℕ → List ℕ
  read b n = map mem (addresses b n)

  unfoldable pub advance_loop : List Iov → ℕ → ℕ → Taken
  advance_loop [] bytes copied = record { copied = copied; iovs = []; bytes = [] }
  advance_loop (v ∷ vs) bytes copied =
      let tocopy = sub32 bytes copied in
      let skipped = advance_loop vs bytes copied in
      let rest = advance_loop vs bytes (u32 (copied + v.len)) in
      if v.len == 0
      then record skipped { iovs = v ∷ skipped.iovs }
      else if ltb tocopy v.len
      then record {
        copied = u32 (copied + tocopy);
        iovs = record { base = v.base + tocopy; len = v.len - tocopy } ∷ vs;
        bytes = read v.base tocopy;
      }
      else if v.len == tocopy
      then record { copied = u32 (copied + tocopy); iovs = empty ∷ vs; bytes = read v.base tocopy }
      else record rest { iovs = empty ∷ rest.iovs; bytes = read v.base v.len ++ rest.bytes }

  unfoldable pub advance : List Iov → ℕ → Option Taken
  unfolding advance_loop
  advance [] bytes = none
  advance (v ∷ vs) bytes =
      if bytes == 0
      then some (record { copied = 0; iovs = v ∷ vs; bytes = [] })
      else some (advance_loop (v ∷ vs) bytes 0)

  -- The loop of `roce_iov_reverse` over the entries from the last to the first. Its bytes go to the
  -- end of the buffer, in front of those copied before.
  unfoldable pub reverse_loop : List Iov → ℕ → ℕ → Taken
  reverse_loop [] bytes copied = record { copied = copied; iovs = []; bytes = [] }
  reverse_loop (v ∷ vs) bytes copied =
      let tocopy = sub32 bytes copied in
      let skipped = reverse_loop vs bytes copied in
      let rest = reverse_loop vs bytes (u32 (copied + v.len)) in
      if v.len == 0
      then record skipped { iovs = v ∷ skipped.iovs }
      else if ltb tocopy v.len
      then record {
        copied = u32 (copied + tocopy);
        iovs = record { base = v.base; len = v.len - tocopy } ∷ vs;
        bytes = read (v.base + v.len - tocopy) tocopy;
      }
      else if v.len == tocopy
      then record {
        copied = u32 (copied + tocopy);
        iovs = empty ∷ vs;
        bytes = read (v.base + v.len - tocopy) tocopy;
      }
      else record rest { iovs = empty ∷ rest.iovs; bytes = rest.bytes ++ read v.base v.len }

  unfoldable pub reverse_iovs : List Iov → ℕ → Option Taken
  unfolding reverse_loop
  reverse_iovs [] bytes = none
  reverse_iovs (v ∷ vs) bytes =
      let t = reverse_loop (reverse (v ∷ vs)) bytes 0 in some (record t { iovs = reverse t.iovs })
