-- ===== src/Crc/Loops.antt =====
-- `__roce_crc32` by eights and fours is the same as one byte at a time.
use libroce.Base.{
  ℕ, zero, suc, ◌<◌, ◌≡◌, ◌≢◌, refl, sym, ap, ◌∙◌, List, [], ◌∷◌, ◌++◌, map, if◌then◌else◌, ◌==◌,
  ◌||◌, false, arith,
}
use libroce.Crc.{crc32_1, crc32_2, crc32_4, crc32_8, loop_1, loop_4, loop_8, crc32_buf, crc32}
use libroce.Iov.{Iov, read, addresses}
use libroce.Iov.Span.{span}
use libroce.Base.{bit_xor}
use libroce.Crc.Bitwise.{shifts, crc32_1-shifts}

-- The register after a list of bytes, each taken by `f`.
abbrev pub fold_bytes : (ℕ → ℕ → ℕ) → ℕ → List ℕ → ℕ
fold_bytes f crc [] = crc
fold_bytes f crc (b ∷ buf) = fold_bytes f (f crc b) buf

fold_bytes-append :
    (f : ℕ → ℕ → ℕ) (crc : ℕ) (xs ys : List ℕ)
    → fold_bytes f crc (xs ++ ys) ≡ fold_bytes f (fold_bytes f crc xs) ys
fold_bytes-append f crc [] ys = refl
fold_bytes-append f crc (x ∷ xs) ys = fold_bytes-append f (f crc x) xs ys

loop_1_lem : (crc : ℕ) (buf : List ℕ) → loop_1 crc buf ≡ fold_bytes crc32_1 crc buf
unfolding loop_1
loop_1_lem crc [] = refl
loop_1_lem crc (b ∷ buf) = loop_1_lem (crc32_1 crc b) buf

loop_4_lem : (crc : ℕ) (buf : List ℕ) → loop_4 crc buf ≡ fold_bytes crc32_1 crc buf
unfolding loop_4 crc32_4 crc32_2
loop_4_lem crc (b0 ∷ b1 ∷ b2 ∷ b3 ∷ buf) = loop_4_lem (crc32_4 crc b0 b1 b2 b3) buf
loop_4_lem crc [] = loop_1_lem crc []
loop_4_lem crc (b0 ∷ []) = loop_1_lem crc (b0 ∷ [])
loop_4_lem crc (b0 ∷ b1 ∷ []) = loop_1_lem crc (b0 ∷ b1 ∷ [])
loop_4_lem crc (b0 ∷ b1 ∷ b2 ∷ []) = loop_1_lem crc (b0 ∷ b1 ∷ b2 ∷ [])

pub crc32_buf-fold_bytes : (crc : ℕ) (buf : List ℕ) → crc32_buf crc buf ≡ fold_bytes crc32_1 crc buf
unfolding crc32_buf loop_8 crc32_8 crc32_4 crc32_2
crc32_buf-fold_bytes crc (b0 ∷ b1 ∷ b2 ∷ b3 ∷ b4 ∷ b5 ∷ b6 ∷ b7 ∷ buf) =
    crc32_buf-fold_bytes (crc32_8 crc b0 b1 b2 b3 b4 b5 b6 b7) buf
crc32_buf-fold_bytes crc [] = loop_4_lem crc []
crc32_buf-fold_bytes crc (b0 ∷ []) = loop_4_lem crc (b0 ∷ [])
crc32_buf-fold_bytes crc (b0 ∷ b1 ∷ []) = loop_4_lem crc (b0 ∷ b1 ∷ [])
crc32_buf-fold_bytes crc (b0 ∷ b1 ∷ b2 ∷ []) = loop_4_lem crc (b0 ∷ b1 ∷ b2 ∷ [])
crc32_buf-fold_bytes crc (b0 ∷ b1 ∷ b2 ∷ b3 ∷ []) = loop_4_lem crc (b0 ∷ b1 ∷ b2 ∷ b3 ∷ [])
crc32_buf-fold_bytes crc (b0 ∷ b1 ∷ b2 ∷ b3 ∷ b4 ∷ []) =
    loop_4_lem crc (b0 ∷ b1 ∷ b2 ∷ b3 ∷ b4 ∷ [])
crc32_buf-fold_bytes crc (b0 ∷ b1 ∷ b2 ∷ b3 ∷ b4 ∷ b5 ∷ []) =
    loop_4_lem crc (b0 ∷ b1 ∷ b2 ∷ b3 ∷ b4 ∷ b5 ∷ [])
crc32_buf-fold_bytes crc (b0 ∷ b1 ∷ b2 ∷ b3 ∷ b4 ∷ b5 ∷ b6 ∷ []) =
    loop_4_lem crc (b0 ∷ b1 ∷ b2 ∷ b3 ∷ b4 ∷ b5 ∷ b6 ∷ [])

-- What the iovecs of a packet are: no entry of a positive length is at the null pointer.
abbrev pub Readable : List Iov → Type 0
Readable [] = Unit
Readable (v ∷ vs) = (v.len ≢ 0 → v.base ≢ 0) × Readable vs

map-append : (mem : ℕ → ℕ) (xs ys : List ℕ) → map mem (xs ++ ys) ≡ map mem xs ++ map mem ys
map-append mem [] ys = refl
map-append mem (x ∷ xs) ys = ap (◌∷◌ (mem x)) (map-append mem xs ys)

fold_bytes_ext :
    (mem : ℕ → ℕ)
    → ((a : ℕ) → mem a < 256)
    → (crc : ℕ) (at : List ℕ)
    → fold_bytes crc32_1 crc (map mem at)
      ≡ fold_bytes (λ c b. shifts 8 (bit_xor c b)) crc (map mem at)
fold_bytes_ext mem h crc [] = refl
fold_bytes_ext mem h crc (a ∷ at) =
    ap (λ c. fold_bytes crc32_1 c (map mem at)) (crc32_1-shifts crc (mem a) (h a))
    ∙ fold_bytes_ext mem h (shifts 8 (bit_xor crc (mem a))) at

by_entry :
    (mem : ℕ → ℕ) (crc : ℕ) (vs : List Iov)
    → Readable vs
    → crc32 mem crc vs ≡ fold_bytes crc32_1 crc (map mem (span vs))
unfolding crc32
by_entry mem crc [] r = refl
by_entry mem crc (v ∷ vs) r =
    ap (λ c. crc32 mem c vs) (entry v.base v.len r.0)
    ∙ by_entry mem (fold_bytes crc32_1 crc (read mem v.base v.len)) vs r.1
    ∙ sym (fold_bytes-append crc32_1 crc (read mem v.base v.len) (map mem (span vs)))
    ∙ ap (fold_bytes crc32_1 crc) (sym (map-append mem (addresses v.base v.len) (span vs)))
  where
    used : (b l : ℕ) → (suc b == 0 || suc l == 0) ≡ false
    used b l = ground arith

    entry :
        (b l : ℕ)
        → (l ≢ 0 → b ≢ 0)
        → (if b == 0 || l == 0 then crc else crc32_buf crc (read mem b l))
          ≡ fold_bytes crc32_1 crc (read mem b l)
    entry b zero n = ground arith
    entry zero (suc l) n = absurd (n (omega arith) refl)
    entry (suc b) (suc l) n = rw (used b l) (crc32_buf-fold_bytes crc (read mem (suc b) (suc l)))

-- `roce_crc32` over a scatter list, in which no entry of a positive length is at the null pointer
-- and memory holds bytes, is the register that takes eight steps of the reflected polynomial for
-- each byte of the list, in order.
pub crc32-span :
    (mem : ℕ → ℕ)
    → ((a : ℕ) → mem a < 256)
    → (crc : ℕ) (vs : List Iov) → Readable vs
    → crc32 mem crc vs ≡ fold_bytes (λ c b. shifts 8 (bit_xor c b)) crc (map mem (span vs))
crc32-span mem h crc vs r = by_entry mem crc vs r ∙ fold_bytes_ext mem h crc (span vs)
