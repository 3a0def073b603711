-- ===== src/Iov/Advance.antt =====
-- `roce_iov_advance` takes bytes off the front of a scatter list.
use native.Mathlib.Decide.{dec_lt, ℕ_discrete}
use libroce.Base.{
  ℕ, zero, suc, ◌+◌, ◌-◌, ◌^◌, ◌≤◌, ◌<◌, min, ◌≡◌, refl, sym, ap, ◌∙◌, subst, List, [], ◌∷◌, ◌++◌,
  map, arith, ltb, ◌==◌, true, false, length, take, drop, some,
}
use mathlib.Core.List.{map-append}
use libroce.Word.{u32, sub32}
use libroce.Iov.{Iov, empty, addresses, Taken, read, advance_loop, advance}
use libroce.Iov.Span.{
  span, total, take_within, take_past, drop_within, drop_past, drop_entry, span_empty, take-nil,
  drop-nil,
}

module _ (mem : ℕ → ℕ) where
  -- What a run that still wants `wanted` bytes leaves of `vs`.
  pub record Front (vs : List Iov) (wanted copied : ℕ) (t : Taken) : Type 0 where
    pub count : t.copied ≡ copied + min wanted (total vs)
    pub taken : t.bytes ≡ map mem (take wanted (span vs))
    pub left : span t.iovs ≡ drop wanted (span vs)
    pub entries : length t.iovs ≡ length vs

  module _ (v : Iov) (vs : List Iov) (bytes copied : ℕ) (fits : bytes < 2 ^ 32)
      (below : copied ≤ bytes) where
    tocopy_eq : sub32 bytes copied ≡ bytes - copied
    tocopy_eq = omega arith

    filled_eq : u32 (copied + (bytes - copied)) ≡ bytes
    filled_eq = omega arith

    -- The four ways through the body of the loop.
    skip_entry :
        v.len ≡ 0
        → advance_loop mem (v ∷ vs) bytes copied
          ≡ (let t = advance_loop mem vs bytes copied in record t { iovs = v ∷ t.iovs })
    unfolding advance_loop
    skip_entry e = ground arith

    split_entry :
        bytes - copied < v.len
        → advance_loop mem (v ∷ vs) bytes copied ≡ record {
          copied = bytes;
          iovs = record { base = v.base + (bytes - copied); len = v.len - (bytes - copied) } ∷ vs;
          bytes = read mem v.base (bytes - copied);
        }
    unfolding advance_loop
    split_entry h = rw (tocopy_eq, nonzero, less, filled_eq) refl
      where
        nonzero : (v.len == 0) ≡ false
        nonzero = ground arith

        less : ltb (bytes - copied) v.len ≡ true
        less = ground arith

    last_entry :
        0 < v.len
        → v.len ≡ bytes - copied
        → advance_loop mem (v ∷ vs) bytes copied
          ≡ record { copied = bytes; iovs = empty ∷ vs; bytes = read mem v.base v.len }
    unfolding advance_loop
    last_entry pos e = rw (tocopy_eq, nonzero, less, same, filled_eq) (ap ended (sym e))
      where
        nonzero : (v.len == 0) ≡ false
        nonzero = ground arith

        less : ltb (bytes - copied) v.len ≡ false
        less = ground arith

        same : (v.len == (bytes - copied)) ≡ true
        same = ground arith

        ended : ℕ → Taken
        ended n = record { copied = bytes; iovs = empty ∷ vs; bytes = read mem v.base n }

    whole_entry :
        0 < v.len
        → v.len < bytes - copied
        → advance_loop mem (v ∷ vs) bytes copied ≡ (
            let t = advance_loop mem vs bytes (copied + v.len) in
            record t { iovs = empty ∷ t.iovs; bytes = read mem v.base v.len ++ t.bytes })
    unfolding advance_loop
    whole_entry pos h = rw (tocopy_eq, nonzero, less, differs, added) refl
      where
        nonzero : (v.len == 0) ≡ false
        nonzero = ground arith

        less : ltb (bytes - copied) v.len ≡ false
        less = ground arith

        differs : (v.len == (bytes - copied)) ≡ false
        differs = ground arith

        added : u32 (copied + v.len) ≡ copied + v.len
        added = omega arith

  skip_Front :
      (v : Iov) (vs : List Iov) {wanted copied : ℕ} {t : Taken}
      → v.len ≡ 0
      → Front vs wanted copied t
      → Front (v ∷ vs) wanted copied (record t { iovs = v ∷ t.iovs })
  skip_Front v vs {wanted} {t = t} e f = record {
    count = omega (arith, f.count);
    taken = f.taken ∙ ap (λ s. map mem (take wanted s)) (sym (span_empty v vs e));
    left = span_empty v t.iovs e ∙ f.left ∙ ap (drop wanted) (sym (span_empty v vs e));
    entries = ap suc f.entries;
  }

  whole_Front :
      (v : Iov) (vs : List Iov) (wanted copied : ℕ) {t : Taken}
      → v.len < wanted
      → Front vs (wanted - v.len) (copied + v.len) t
      → Front
          (v ∷ vs)
          wanted
          copied
          (record t { iovs = empty ∷ t.iovs; bytes = read mem v.base v.len ++ t.bytes })
  whole_Front v vs wanted copied h f = record {
    count = omega (arith, f.count);
    taken =
        ap (◌++◌ (read mem v.base v.len)) f.taken
        ∙ sym (map-append mem (addresses v.base v.len) (take (wanted - v.len) (span vs)))
        ∙ ap (map mem) (sym (take_past v vs wanted (omega arith)));
    left = f.left ∙ sym (drop_past v vs wanted (omega arith));
    entries = ap suc f.entries;
  }

  advance_loop-Front :
      (vs : List Iov) (bytes copied : ℕ)
      → bytes < 2 ^ 32
      → copied < bytes
      → Front vs (bytes - copied) copied (advance_loop mem vs bytes copied)
  advance_loop-Front [] bytes copied fits below =
      unfold advance_loop in
      record {
        count = omega arith;
        taken = ap (map mem) (sym (take-nil (bytes - copied)));
        left = sym (drop-nil (bytes - copied));
        entries = refl;
      }
  advance_loop-Front (v ∷ vs) bytes copied fits below = elim (ℕ_discrete v.len 0) [
    | yes e ↦
        rw (skip_entry v vs bytes copied fits (omega arith) e)
          (skip_Front v vs e (advance_loop-Front vs bytes copied fits below))
    | no ne ↦ elim (dec_lt (bytes - copied) v.len) [
      | yes h ↦ rw (split_entry v vs bytes copied fits (omega arith) h) (record {
        count = omega arith;
        taken = ap (map mem) (sym (take_within v vs (bytes - copied) (omega arith)));
        left = sym (drop_within v vs (bytes - copied) (omega arith));
        entries = refl;
      })
      | no h ↦ elim (ℕ_discrete v.len (bytes - copied)) [
        | yes same ↦
            rw (last_entry v vs bytes copied fits (omega arith) (omega arith) same) (record {
              count = omega arith;
              taken = ap (map mem) (
                  ap (addresses v.base) same
                  ∙ sym (take_within v vs (bytes - copied) (omega arith)));
              left = sym (drop_entry v vs (bytes - copied) same);
              entries = refl;
            })
        | no ne' ↦
            rw (whole_entry v vs bytes copied fits (omega arith) (omega arith) (omega arith)) (
              whole_Front v vs (bytes - copied) copied (omega arith) (
                subst
                  (λ n. Front vs n (copied + v.len) (advance_loop mem vs bytes (copied + v.len)))
                  (omega arith) (advance_loop-Front vs bytes (copied + v.len) fits (omega arith))))
      ]
    ]
  ]

  -- `roce_iov_advance` of less than 4 GiB from an array that has entries returns the number of
  -- bytes it moved, which is `bytes` or all there are; it copies the first that many bytes of the
  -- list in order, and leaves the others, in as many entries.
  pub advance-Front :
      (v : Iov) (vs : List Iov) (bytes : ℕ)
      → bytes < 2 ^ 32
      → (t : Taken) × (advance mem (v ∷ vs) bytes ≡ some t) × Front (v ∷ vs) bytes 0 t
  unfolding advance
  advance-Front v vs zero fits =
      (_, refl, record { count = omega arith; taken = refl; left = refl; entries = refl })
  advance-Front v vs (suc n) fits = (
    advance_loop mem (v ∷ vs) (suc n) 0,
    rw nonzero,
    subst (λ k. Front (v ∷ vs) k 0 (advance_loop mem (v ∷ vs) (suc n) 0)) (omega arith)
        (advance_loop-Front (v ∷ vs) (suc n) 0 fits (omega arith)),
  )
    where
      nonzero : (suc n == 0) ≡ false
      nonzero = ground arith
