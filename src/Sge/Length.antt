-- ===== src/Sge/Length.antt =====
-- `roce_sge_len` counts the bytes from an offset in an element on.
use libroce.Base.{
  ℕ, ◌+◌, ◌-◌, ◌^◌, ◌<◌, ◌≡◌, ap, ◌∙◌, List, [], ◌∷◌, some, ltb, map, drop, arith, true, false,
  length,
}
use libroce.Word.{sub32}
use libroce.Iov.Span.{total, span, length-span}
use libroce.Sge.{Sge, len_behind, sge_len}
use libroce.Sge.Advance.{iov_of, iovs_from, Fits}

len_behind_lem :
    (n : ℕ) (ss : List Sge)
    → n + total (map iov_of ss) < 2 ^ 64
    → len_behind n ss ≡ n + total (map iov_of ss)
unfolding len_behind
len_behind_lem n [] h = omega arith
len_behind_lem n (s ∷ ss) h =
    ap (λ m. len_behind m ss) (omega arith)
    ∙ len_behind_lem (n + s.length) ss (omega arith)
    ∙ omega arith

-- `roce_sge_len` from an offset within the element at the index, where the elements from there on
-- hold less than 4 GiB, passes its assertions and returns the number of their bytes.
pub sge_len-span :
    (sges : List Sge) (s : Sge) (ss : List Sge) (sge_idx off : ℕ)
    → drop sge_idx sges ≡ s ∷ ss
    → Fits off (s ∷ ss)
    → total (iovs_from off (s ∷ ss)) < 2 ^ 32
    → sge_len sges sge_idx off ≡ some (length (span (iovs_from off (s ∷ ss))))
unfolding sge_len
sge_len-span sges s ss sge_idx off e f small =
    rw (e, in_range, counted, fits, sge_len)
      (ap some (omega (arith, length-span (iovs_from off (s ∷ ss)))))
  where
    in_range : ltb s.length off ≡ false
    in_range = ground (arith, f.0)

    counted : len_behind (sub32 s.length off) ss ≡ (s.length - off) + total (map iov_of ss)
    counted =
        ap (λ n. len_behind n ss) (omega (arith, f.0, f.1))
        ∙ len_behind_lem (s.length - off) ss (omega arith)

    fits : ltb ((s.length - off) + total (map iov_of ss)) (2 ^ 32) ≡ true
    fits = ground arith
