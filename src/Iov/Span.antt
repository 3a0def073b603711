-- ===== src/Iov/Span.antt =====
-- The bytes that a scatter list stands for, as the list of their addresses.
use libroce.Base.{
  ℕ, zero, suc, ◌+◌, ◌-◌, ◌%◌, ◌^◌, ◌≤◌, ◌<◌, ◌≡◌, refl, ap, ap₂, ◌∙◌, List, [], ◌∷◌, ◌++◌, arith,
  length, take, drop, length-append, some,
}
use libroce.Word.{u32}
use libroce.Iov.{Iov, addresses, len_from, iov_len}

abbrev pub span : List Iov → List ℕ
span [] = []
span (v ∷ vs) = addresses v.base v.len ++ span vs

abbrev pub total : List Iov → ℕ
total [] = 0
total (v ∷ vs) = v.len + total vs

pub length-addresses : (b n : ℕ) → length (addresses b n) ≡ n
length-addresses b zero = refl
length-addresses b (suc n) = ap suc (length-addresses (b + 1) n)

pub length-span : (vs : List Iov) → length (span vs) ≡ total vs
length-span [] = refl
length-span (v ∷ vs) = omega (
  arith,
  length-append (addresses v.base v.len) (span vs),
  length-addresses v.base v.len,
  length-span vs,
)

module _ {ℓ} {A : Type ℓ} where
  pub take-append_le : (k : ℕ) (xs ys : List A) → k ≤ length xs → take k (xs ++ ys) ≡ take k xs
  take-append_le zero xs ys h = refl
  take-append_le (suc k) [] ys h = absurd (omega arith)
  take-append_le (suc k) (x ∷ xs) ys h = ap (◌∷◌ x) (take-append_le k xs ys (omega arith))

  pub take-append_ge :
      (k : ℕ) (xs ys : List A) → length xs ≤ k → take k (xs ++ ys) ≡ xs ++ take (k - length xs) ys
  take-append_ge k [] ys h = ap (λ n. take n ys) (omega arith)
  take-append_ge zero (x ∷ xs) ys h = absurd (omega arith)
  take-append_ge (suc k) (x ∷ xs) ys h =
      ap (◌∷◌ x) (take-append_ge k xs ys (omega arith) ∙ ap (λ n. xs ++ take n ys) (omega arith))

  pub drop-append_le :
      (k : ℕ) (xs ys : List A) → k ≤ length xs → drop k (xs ++ ys) ≡ drop k xs ++ ys
  drop-append_le zero xs ys h = refl
  drop-append_le (suc k) [] ys h = absurd (omega arith)
  drop-append_le (suc k) (x ∷ xs) ys h = drop-append_le k xs ys (omega arith)

  pub drop-append_ge :
      (k : ℕ) (xs ys : List A) → length xs ≤ k → drop k (xs ++ ys) ≡ drop (k - length xs) ys
  drop-append_ge k [] ys h = ap (λ n. drop n ys) (omega arith)
  drop-append_ge zero (x ∷ xs) ys h = absurd (omega arith)
  drop-append_ge (suc k) (x ∷ xs) ys h =
      drop-append_ge k xs ys (omega arith) ∙ ap (λ n. drop n ys) (omega arith)

pub take-addresses : (k b n : ℕ) → k ≤ n → take k (addresses b n) ≡ addresses b k
take-addresses zero b n h = refl
take-addresses (suc k) b zero h = absurd (omega arith)
take-addresses (suc k) b (suc n) h = ap (◌∷◌ b) (take-addresses k (b + 1) n (omega arith))

pub drop-addresses : (k b n : ℕ) → k ≤ n → drop k (addresses b n) ≡ addresses (b + k) (n - k)
drop-addresses zero b n h = ap₂ addresses (omega arith) (omega arith)
drop-addresses (suc k) b zero h = absurd (omega arith)
drop-addresses (suc k) b (suc n) h =
    drop-addresses k (b + 1) n (omega arith) ∙ ap₂ addresses (omega arith) (omega arith)

-- The first entry of a list and a count of bytes that ends within it, or past it.
module _ (v : Iov) (vs : List Iov) (k : ℕ) where
  pub take_within : k ≤ v.len → take k (span (v ∷ vs)) ≡ addresses v.base k
  take_within h =
      take-append_le k (addresses v.base v.len) (span vs)
        (omega (arith, length-addresses v.base v.len))
      ∙ take-addresses k v.base v.len h

  pub take_past :
      v.len ≤ k → take k (span (v ∷ vs)) ≡ addresses v.base v.len ++ take (k - v.len) (span vs)
  take_past h =
      take-append_ge k (addresses v.base v.len) (span vs)
        (omega (arith, length-addresses v.base v.len))
      ∙ ap (λ n. addresses v.base v.len ++ take (k - n) (span vs)) (length-addresses v.base v.len)

  pub drop_within :
      k ≤ v.len → drop k (span (v ∷ vs)) ≡ addresses (v.base + k) (v.len - k) ++ span vs
  drop_within h =
      drop-append_le k (addresses v.base v.len) (span vs)
        (omega (arith, length-addresses v.base v.len))
      ∙ ap (λ t. t ++ span vs) (drop-addresses k v.base v.len h)

  pub drop_past : v.len ≤ k → drop k (span (v ∷ vs)) ≡ drop (k - v.len) (span vs)
  drop_past h =
      drop-append_ge k (addresses v.base v.len) (span vs)
        (omega (arith, length-addresses v.base v.len))
      ∙ ap (λ n. drop (k - n) (span vs)) (length-addresses v.base v.len)

pub drop_entry : (v : Iov) (vs : List Iov) (k : ℕ) → v.len ≡ k → drop k (span (v ∷ vs)) ≡ span vs
drop_entry v vs k e = drop_past v vs k (omega arith) ∙ ap (λ n. drop n (span vs)) nothing
  where
    nothing : k - v.len ≡ 0
    nothing = omega arith

pub span_empty : (v : Iov) (vs : List Iov) → v.len ≡ 0 → span (v ∷ vs) ≡ span vs
span_empty v vs e = ap (λ n. addresses v.base n ++ span vs) e

pub take-nil : (n : ℕ) → take {A = ℕ} n [] ≡ []
take-nil zero = refl
take-nil (suc n) = refl

pub drop-nil : (n : ℕ) → drop {A = ℕ} n [] ≡ []
drop-nil zero = refl
drop-nil (suc n) = refl

len_from-total :
    (acc : ℕ) (vs : List Iov) → acc < 2 ^ 32 → len_from acc vs ≡ (acc + total vs) % 2 ^ 32
unfolding len_from
len_from-total acc [] h = omega arith
len_from-total acc (v ∷ vs) h = len_from-total (u32 (acc + v.len)) vs (omega arith) ∙ omega arith

-- The count of a list that has entries and less than 4 GiB is the number of its bytes.
pub iov_len-span :
    (v : Iov) (vs : List Iov)
    → total (v ∷ vs) < 2 ^ 32
    → iov_len (v ∷ vs) ≡ some (length (span (v ∷ vs)))
unfolding iov_len
iov_len-span v vs h =
    ap some (len_from-total 0 (v ∷ vs) (omega arith) ∙ omega (arith, length-span (v ∷ vs)))
