-- ===== src/Iov/Copy.antt =====
-- `roce_iov_copy` picks the bytes that it is asked for.
use native.Mathlib.Decide.{dec_le}
use libroce.Base.{
  ℕ, zero, suc, ◌+◌, ◌-◌, ◌^◌, ◌≤◌, ◌<◌, ◌≡◌, refl, sym, ap, ◌∙◌, inl, inr, List, [], ◌∷◌, ◌++◌,
  append-nil, arith, ltb, ltb→lt, ltb→le, ◌==◌, false, Bool-cases, length, take, drop, none, some,
}
use libroce.Word.{u32, sub32}
use libroce.Iov.{Iov, addresses, roce_min, skip, copy_rest, copy_from, copy}
use libroce.Iov.Span.{span, total, take_within, take_past, drop_within, drop_past, take-nil}

-- Where the skipping ends: at the entry that holds the byte numbered `offset`.
record Lands (vs : List Iov) (offset : ℕ) : Type 0 where
  at : Iov
  left : ℕ
  behind : List Iov
  found : skip vs offset ≡ some (at, left, behind)
  inside : left < at.len
  rest : drop offset (span vs) ≡ addresses (at.base + left) (at.len - left) ++ span behind
  count : at.len - left + total behind ≡ total vs - offset
  shorter : length behind < length vs

skip_past :
    (v : Iov) (vs : List Iov) (offset : ℕ)
    → offset < 2 ^ 32
    → ltb offset v.len ≡ false
    → skip (v ∷ vs) offset ≡ skip vs (offset - v.len)
unfolding skip
skip_past v vs offset ho past = rw past (ap (skip vs) (omega (arith, ltb→le offset v.len past)))

skip-Lands : (vs : List Iov) (offset : ℕ) → offset < 2 ^ 32 → offset < total vs → Lands vs offset
unfolding skip
skip-Lands [] offset ho h = absurd (omega arith)
skip-Lands (v ∷ vs) offset ho h = elim (Bool-cases (ltb offset v.len)) [
  | inl here ↦ record {
    at = v;
    left = offset;
    behind = vs;
    found = rw here;
    inside = ltb→lt _ _ here;
    rest = drop_within v vs offset (omega (arith, ltb→lt _ _ here));
    count = omega (arith, ltb→lt _ _ here);
    shorter = omega arith;
  }
  | inr past ↦
      let le : v.len ≤ offset = ltb→le _ _ past in
      let e : sub32 offset v.len ≡ offset - v.len = omega arith in
      let ih : Lands vs (offset - v.len) =
        skip-Lands vs (offset - v.len) (omega arith) (omega arith) in
      record {
        at = ih.at;
        left = ih.left;
        behind = ih.behind;
        found = skip_past v vs offset ho past ∙ ih.found;
        inside = ih.inside;
        rest = drop_past v vs offset le ∙ ih.rest;
        count = omega (arith, ih.count);
        shorter = omega (arith, ih.shorter);
      }
]

skip-none :
    (vs : List Iov) (offset : ℕ) → offset < 2 ^ 32 → total vs ≤ offset → skip vs offset ≡ none
unfolding skip
skip-none [] offset ho h = refl
skip-none (v ∷ vs) offset ho h = elim (Bool-cases (ltb offset v.len)) [
  | inl here ↦ absurd (omega (arith, ltb→lt _ _ here))
  | inr past ↦
      let e : sub32 offset v.len ≡ offset - v.len = omega (arith, ltb→le _ _ past) in
      rw (past, e) (skip-none vs (offset - v.len) (omega arith) (omega (arith, ltb→le _ _ past)))
]

-- What the last loop has done: the bytes picked, and the count, which is one too many where the
-- entries end first.
record Copied (vs : List Iov) (bytes num : ℕ) (r : List Iov × ℕ) : Type 0 where
  picked : span r.0 ≡ take bytes (span vs)
  enough : bytes ≤ total vs → r.1 ≡ num + length r.0
  short : total vs < bytes → r.1 ≡ num + length r.0 + 1

module _ (v : Iov) (vs : List Iov) (bytes num : ℕ) (fits : bytes < 2 ^ 32)
    (room : num + 1 < 2 ^ 32) where
  copy_rest_last :
      bytes ≤ v.len
      → copy_rest (v ∷ vs) bytes num ≡ (record { base = v.base; len = bytes } ∷ [], num + 1)
  unfolding copy_rest
  copy_rest_last h = ground arith

  copy_rest_more :
      v.len < bytes
      → copy_rest (v ∷ vs) bytes num ≡ (
          let r = copy_rest vs (bytes - v.len) (num + 1) in
          (record { base = v.base; len = v.len } ∷ r.0, r.1))
  unfolding copy_rest
  copy_rest_more h = rw (min_eq, test, left_eq, num_eq) refl
    where
      min_eq : roce_min v.len bytes ≡ v.len
      min_eq = ground arith

      left_eq : sub32 bytes v.len ≡ bytes - v.len
      left_eq = omega arith

      num_eq : u32 (num + 1) ≡ num + 1
      num_eq = omega arith

      test : (sub32 bytes v.len == 0) ≡ false
      test = ground arith

copy_rest-Copied :
    (vs : List Iov) (bytes num : ℕ)
    → 0 < bytes
    → bytes < 2 ^ 32
    → num + length vs + 1 < 2 ^ 32
    → Copied vs bytes num (copy_rest vs bytes num)
copy_rest-Copied [] bytes num pos fits room =
    unfold copy_rest in
    record {
      picked = sym (take-nil bytes);
      enough = λ h. absurd (omega arith);
      short = λ h. omega arith;
    }
copy_rest-Copied (v ∷ vs) bytes num pos fits room = elim (dec_le bytes v.len) [
  | yes h ↦ rw (copy_rest_last v vs bytes num fits (omega arith) h) (record {
    picked = append-nil _ ∙ sym (take_within v vs bytes h);
    enough = λ _. omega arith;
    short = λ s. absurd (omega arith);
  })
  | no h ↦
      let ih : Copied vs (bytes - v.len) (num + 1) (copy_rest vs (bytes - v.len) (num + 1)) =
        copy_rest-Copied vs (bytes - v.len) (num + 1) (omega arith) (omega arith) (omega arith) in
      rw (copy_rest_more v vs bytes num fits (omega arith) (omega arith)) (record {
        picked =
            ap (◌++◌ (addresses v.base v.len)) ih.picked ∙ sym (take_past v vs bytes (omega arith));
        enough = λ e. omega (arith, ih.enough (omega arith));
        short = λ s. omega (arith, ih.short (omega arith));
      })
]

copy_from-copy_rest :
    (v : Iov) (offset : ℕ) (vs : List Iov) (bytes : ℕ)
    → copy_from v offset vs bytes
      ≡ copy_rest (record { base = v.base + offset; len = v.len - offset } ∷ vs) bytes 0
unfolding copy_from copy_rest
copy_from-copy_rest v offset vs bytes = refl

-- The call where the skipping lands in an entry.
copy-Copied :
    (v : Iov) (vs : List Iov) (offset bytes : ℕ)
    → 0 < bytes
    → bytes < 2 ^ 32
    → offset < 2 ^ 32
    → length (v ∷ vs) + 1 < 2 ^ 32
    → offset < total (v ∷ vs)
    → (ws : List Iov) × (r : List Iov × ℕ) × (copy (v ∷ vs) offset bytes ≡ some r)
      × (span ws ≡ drop offset (span (v ∷ vs)))
      × (total ws ≡ total (v ∷ vs) - offset)
      × Copied ws bytes 0 r
unfolding copy
copy-Copied v vs offset bytes pos fits small room inside =
    let l : Lands (v ∷ vs) offset = skip-Lands (v ∷ vs) offset small inside in
    let ws : List Iov = record { base = l.at.base + l.left; len = l.at.len - l.left } ∷ l.behind in
    (
      ws,
      copy_rest ws bytes 0,
      rw (nonzero, l.found, copy) (ap some (copy_from-copy_rest l.at l.left l.behind bytes)),
      sym l.rest,
      l.count,
      copy_rest-Copied ws bytes 0 pos fits (omega (arith, l.shorter)),
    )
  where
    nonzero : (bytes == 0) ≡ false
    nonzero = ground arith

-- `roce_iov_copy` of bytes that lie within a list of less than 4 GiB: the entries written stand for
-- exactly the bytes `[offset, offset + bytes)` of the list, in order, and the count returned is
-- their number.
pub copy-span :
    (v : Iov) (vs : List Iov) (offset bytes : ℕ)
    → total (v ∷ vs) < 2 ^ 32
    → length (v ∷ vs) + 1 < 2 ^ 32
    → offset + bytes ≤ total (v ∷ vs)
    → (ds : List Iov) × (copy (v ∷ vs) offset bytes ≡ some (ds, length ds))
      × (span ds ≡ take bytes (drop offset (span (v ∷ vs))))
copy-span v vs offset zero small room within = unfold copy in ([], refl, refl)
copy-span v vs offset (suc n) small room within =
    let c =
      copy-Copied v vs offset (suc n) (omega arith) (omega arith) (omega arith) room
        (omega arith) in
    (
      c.1.0,
      c.2 ∙ ap (λ k. some (c.1.0, k)) (omega (arith, c.5.enough (omega (arith, c.4)))),
      c.5.picked ∙ ap (take (suc n)) c.3,
    )
