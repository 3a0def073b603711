-- ===== src/Iov/Reverse.antt =====
-- `roce_iov_reverse` takes bytes off the end of a scatter list.
use native.Mathlib.Decide.{dec_lt, ℕ_discrete}
use mathlib.Core.List.{map-append, reverse, reverse-cons, reverse-reverse}
use libroce.Base.{
  ℕ, zero, suc, ◌+◌, ◌-◌, ◌^◌, ◌<◌, min, ◌≡◌, refl, sym, ap, ap₂, ◌∙◌, List, [], ◌∷◌, ◌++◌, map,
  arith, ltb, ◌==◌, true, false, length, length-append, append-nil, append_assoc, some,
}
use libroce.Word.{u32, sub32}
use libroce.Iov.{Iov, addresses, Taken, read, reverse_loop, reverse_iovs}
use libroce.Iov.Span.{span, total, length-addresses, length-span}

-- The bytes of a list whose entries stand in the other order.
abbrev back : List Iov → List ℕ
back [] = []
back (v ∷ vs) = back vs ++ addresses v.base v.len

addresses_split : (m b n : ℕ) → addresses b (m + n) ≡ addresses b m ++ addresses (b + m) n
addresses_split zero b n = ap₂ addresses (omega arith) (omega arith)
addresses_split (suc m) b n =
    ap (addresses b) stepped
    ∙ ap (◌∷◌ b)
        (addresses_split m (b + 1) n ∙ ap (λ k. addresses (b + 1) m ++ addresses k n) (omega arith))
  where
    stepped : suc m + n ≡ suc (m + n)
    stepped = omega arith

span-append : (vs ws : List Iov) → span (vs ++ ws) ≡ span vs ++ span ws
span-append [] ws = refl
span-append (v ∷ vs) ws =
    ap (◌++◌ (addresses v.base v.len)) (span-append vs ws)
    ∙ sym (append_assoc (addresses v.base v.len) (span vs) (span ws))

back-span : (vs : List Iov) → back vs ≡ span (reverse vs)
back-span [] = refl
back-span (v ∷ vs) =
    ap (λ l. l ++ addresses v.base v.len) (back-span vs)
    ∙ sym (
        ap span (reverse-cons v vs)
        ∙ span-append (reverse vs) (v ∷ [])
        ∙ ap (◌++◌ (span (reverse vs))) (append-nil (addresses v.base v.len)))

module _ (mem : ℕ → ℕ) where
  -- What a run that still wants `wanted` bytes leaves of `vs`: `ps` are the places of those it
  -- takes.
  record Back (vs : List Iov) (wanted copied : ℕ) (t : Taken) (ps : List ℕ) : Type 0 where
    count : t.copied ≡ copied + length ps
    most : length ps ≡ min wanted (length (back vs))
    taken : t.bytes ≡ map mem ps
    left : back t.iovs ++ ps ≡ back vs
    entries : length t.iovs ≡ length vs

  module _ (v : Iov) (vs : List Iov) (bytes copied : ℕ) (fits : bytes < 2 ^ 32)
      (below : copied < bytes) where
    long : length (back (v ∷ vs)) ≡ length (back vs) + v.len
    long =
        omega
          (arith, length-append (back vs) (addresses v.base v.len), length-addresses v.base v.len)

    tocopy_eq : sub32 bytes copied ≡ bytes - copied
    tocopy_eq = omega arith

    filled_eq : u32 (copied + (bytes - copied)) ≡ bytes
    filled_eq = omega arith

    -- The four ways through the body of the loop.
    skipped :
        v.len ≡ 0
        → {ps : List ℕ} → Back vs (bytes - copied) copied (reverse_loop mem vs bytes copied) ps
        → Back (v ∷ vs) (bytes - copied) copied (reverse_loop mem (v ∷ vs) bytes copied) ps
    unfolding reverse_loop
    skipped e {ps} b = rw nothing record {
      count = b.count;
      most = b.most ∙ ap (λ l. min (bytes - copied) (length l)) (sym same);
      taken = b.taken;
      left =
          ap (λ l. l ++ ps)
            (ap (λ n. back (reverse_loop mem vs bytes copied).iovs ++ addresses v.base n) e
              ∙ append-nil _)
          ∙ b.left
          ∙ sym same;
      entries = ap suc b.entries;
    }
      where
        nothing : (v.len == 0) ≡ true
        nothing = ground arith

        same : back (v ∷ vs) ≡ back vs
        same = ap (λ n. back vs ++ addresses v.base n) e ∙ append-nil (back vs)

    split :
        bytes - copied < v.len
        → Back
            (v ∷ vs)
            (bytes - copied)
            copied
            (reverse_loop mem (v ∷ vs) bytes copied)
            (addresses (v.base + (v.len - (bytes - copied))) (bytes - copied))
    unfolding reverse_loop
    split h =
        rw (tocopy_eq, nonzero, less, filled_eq)
          record {
            count = omega (arith, length-addresses (v.base + kept) (bytes - copied));
            most = omega (arith, length-addresses (v.base + kept) (bytes - copied), long);
            taken = ap (λ b. read mem b (bytes - copied)) (omega arith);
            left =
                append_assoc (back vs) (addresses v.base kept)
                  (addresses (v.base + kept) (bytes - copied))
                ∙ ap (◌++◌ (back vs)) (
                    sym (addresses_split kept v.base (bytes - copied))
                    ∙ ap (addresses v.base) (omega arith));
            entries = refl;
          }
      where
        kept : ℕ
        kept = v.len - (bytes - copied)

        nonzero : (v.len == 0) ≡ false
        nonzero = ground arith

        less : ltb (bytes - copied) v.len ≡ true
        less = ground arith

    last :
        0 < v.len
        → v.len ≡ bytes - copied
        → Back
            (v ∷ vs)
            (bytes - copied)
            copied
            (reverse_loop mem (v ∷ vs) bytes copied)
            (addresses v.base v.len)
    unfolding reverse_loop
    last pos e =
        rw (tocopy_eq, nonzero, less, same, filled_eq)
          record {
            count = omega (arith, length-addresses v.base v.len);
            most = omega (arith, length-addresses v.base v.len, long);
            taken = ap₂ (read mem) (omega arith) (sym e);
            left = ap (λ l. l ++ addresses v.base v.len) (append-nil (back vs));
            entries = refl;
          }
      where
        nonzero : (v.len == 0) ≡ false
        nonzero = ground arith

        less : ltb (bytes - copied) v.len ≡ false
        less = ground arith

        same : (v.len == (bytes - copied)) ≡ true
        same = ground arith

    whole :
        0 < v.len
        → v.len < bytes - copied
        → {ps : List ℕ}
        → Back vs
            (bytes - (copied + v.len))
            (copied + v.len)
            (reverse_loop mem vs bytes (copied + v.len))
            ps
        → Back
            (v ∷ vs)
            (bytes - copied)
            copied
            (reverse_loop mem (v ∷ vs) bytes copied)
            (ps ++ addresses v.base v.len)
    unfolding reverse_loop
    whole pos h {ps} b =
        rw (tocopy_eq, nonzero, less, differs, added)
          record {
            count = omega (arith, b.count, here);
            most = omega (arith, b.most, here, long);
            taken =
                ap (λ l. l ++ read mem v.base v.len) b.taken
                ∙ sym (map-append mem ps (addresses v.base v.len));
            left =
                ap (λ l. l ++ (ps ++ addresses v.base v.len)) (append-nil _)
                ∙ sym (append_assoc _ ps (addresses v.base v.len))
                ∙ ap (λ l. l ++ addresses v.base v.len) b.left;
            entries = ap suc b.entries;
          }
      where
        here : length (ps ++ addresses v.base v.len) ≡ length ps + v.len
        here =
            omega (arith, length-append ps (addresses v.base v.len), length-addresses v.base v.len)

        nonzero : (v.len == 0) ≡ false
        nonzero = ground arith

        less : ltb (bytes - copied) v.len ≡ false
        less = ground arith

        differs : (v.len == (bytes - copied)) ≡ false
        differs = ground arith

        added : u32 (copied + v.len) ≡ copied + v.len
        added = omega arith

  reverse_loop-Back :
      (vs : List Iov) (bytes copied : ℕ)
      → bytes < 2 ^ 32
      → copied < bytes
      → (ps : List ℕ) × Back vs (bytes - copied) copied (reverse_loop mem vs bytes copied) ps
  reverse_loop-Back [] bytes copied fits below = (
    [],
    unfold reverse_loop in
        record {
          count = omega arith;
          most = omega arith;
          taken = refl;
          left = refl;
          entries = refl;
        },
  )
  reverse_loop-Back (v ∷ vs) bytes copied fits below = elim (ℕ_discrete v.len 0) [
    | yes e ↦
        let (ps, b) = reverse_loop-Back vs bytes copied fits below in
        (ps, skipped v vs bytes copied fits below e b)
    | no ne ↦ elim (dec_lt (bytes - copied) v.len) [
      | yes h ↦ (_, split v vs bytes copied fits below h)
      | no h ↦ elim (ℕ_discrete v.len (bytes - copied)) [
        | yes same ↦ (_, last v vs bytes copied fits below (omega arith) same)
        | no ne' ↦
            let (ps, b) = reverse_loop-Back vs bytes (copied + v.len) fits (omega arith) in
            (_, whole v vs bytes copied fits below (omega arith) (omega arith) b)
      ]
    ]
  ]

  -- What is taken off the end of `vs`, and what is left.
  pub record End (vs : List Iov) (bytes : ℕ) (t : Taken) (ps : List ℕ) : Type 0 where
    pub count : t.copied ≡ length ps
    pub most : length ps ≡ min bytes (total vs)
    pub taken : t.bytes ≡ map mem ps
    pub left : span t.iovs ++ ps ≡ span vs

  -- `roce_iov_reverse` of some bytes, less than 4 GiB, from an array that has entries returns the
  -- number of bytes it moved, which is `bytes` or all there are; it copies the last that many bytes
  -- of the list in order, and leaves the others.
  pub reverse_iovs-End :
      (v : Iov) (vs : List Iov) (bytes : ℕ)
      → 0 < bytes
      → bytes < 2 ^ 32
      → (t : Taken) × (ps : List ℕ) × (reverse_iovs mem (v ∷ vs) bytes ≡ some t)
        × End (v ∷ vs) bytes t ps
  unfolding reverse_iovs
  reverse_iovs-End v vs bytes pos fits =
      let (ps, b) = reverse_loop-Back (reverse (v ∷ vs)) bytes 0 fits pos in
      let all : back (reverse (v ∷ vs)) ≡ span (v ∷ vs) =
        back-span (reverse (v ∷ vs)) ∙ ap span (reverse-reverse (v ∷ vs)) in
      (
        _,
        ps,
        refl,
        record {
          count = omega (arith, b.count);
          most = omega (arith, b.most, ap length all, length-span (v ∷ vs));
          taken = b.taken;
          left =
              ap (λ l. l ++ ps) (sym (back-span (reverse_loop mem (reverse (v ∷ vs)) bytes 0).iovs))
              ∙ b.left
              ∙ all;
        },
      )
