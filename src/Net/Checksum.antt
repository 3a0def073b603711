-- ===== src/Net/Checksum.antt =====
-- include/private/checksum.h: the Internet checksum (`roce_checksum`) of a header, which is the
-- list of its 16-bit words in the host's order; the length in bytes is twice their number.
use mathlib.Core.Option
use native.Mathlib.Decide.{dec_lt, ℕ_discrete}
use libroce.Base.{
  ℕ, zero, suc, ◌+◌, ◌-◌, ◌*◌, ◌/◌, ◌%◌, ◌^◌, ◌≤◌, ◌<◌, ◌≡◌, ◌≢◌, refl, ap, ◌∙◌, List, [], ◌∷◌,
  ◌++◌, Option, none, some, bit_and, ◌==◌, if◌then◌else◌, arith, length, length-append, true, false,
}
use libroce.Word.{u16, u32, ◌>>>◌, not32}
use libroce.Word.Bits.{bit_and-low}

-- `sum += *addr++`.
unfoldable sum_words : ℕ → List ℕ → ℕ
sum_words sum [] = sum
sum_words sum (w ∷ ws) = sum_words (u32 (sum + w)) ws

-- The second loop, as far as `fuel` rounds.
unfoldable fold_carries : ℕ → ℕ → Option ℕ
fold_carries zero sum = if sum >>> 16 == 0 then some sum else none
fold_carries (suc fuel) sum =
    let later = fold_carries fuel (u32 (bit_and sum 0xffff + (sum >>> 16))) in
    if sum >>> 16 == 0 then some sum else later

-- Two rounds take any 32-bit sum below 2 ^ 16.
unfoldable pub checksum : List ℕ → Option ℕ
unfolding sum_words fold_carries
checksum ws = Option.map (λ sum. u16 (not32 sum)) (fold_carries 2 (sum_words 0 ws))

abbrev pub total : List ℕ → ℕ
total [] = 0
total (w ∷ ws) = w + total ws

abbrev pub AreWords : List ℕ → Type 0
AreWords [] = Unit
AreWords (w ∷ ws) = (w < 2 ^ 16) × AreWords ws

sum_words_lem :
    (sum : ℕ) (ws : List ℕ) → sum + total ws < 2 ^ 32 → sum_words sum ws ≡ sum + total ws
unfolding sum_words
sum_words_lem sum [] h = omega arith
sum_words_lem sum (w ∷ ws) h =
    ap (λ s. sum_words s ws) (omega arith) ∙ sum_words_lem (sum + w) ws (omega arith) ∙ omega arith

total_lt : (ws : List ℕ) → AreWords ws → total ws ≤ length ws * (2 ^ 16 - 1)
total_lt [] h = omega arith
total_lt (w ∷ ws) h = omega (arith, total_lt ws h.1, h.0)

total-append : (xs ys : List ℕ) → total (xs ++ ys) ≡ total xs + total ys
total-append [] ys = omega arith
total-append (x ∷ xs) ys = omega (arith, total-append xs ys)

no_carry : (sum : ℕ) → sum < 2 ^ 16 → (sum >>> 16 == 0) ≡ true
no_carry sum h = ground arith

fold_done : (fuel sum : ℕ) → sum < 2 ^ 16 → fold_carries fuel sum ≡ some sum
unfolding fold_carries
fold_done zero sum h = rw (no_carry sum h) refl
fold_done (suc fuel) sum h = rw (no_carry sum h) refl

fold_round :
    (fuel sum : ℕ)
    → 2 ^ 16 ≤ sum
    → sum < 2 ^ 32
    → fold_carries (suc fuel) sum ≡ fold_carries fuel (sum % 2 ^ 16 + sum / 2 ^ 16)
unfolding fold_carries
fold_round fuel sum lo hi = rw test (ap (fold_carries fuel) (omega (arith, bit_and-low 16 sum)))
  where
    test : (sum >>> 16 == 0) ≡ false
    test = ground arith

-- The rounds end below 2 ^ 16, keep the sum modulo 2 ^ 16 - 1, and do not reach zero.
record Folded (n r : ℕ) : Type 0 where
  small : r < 2 ^ 16
  same : r % 65535 ≡ n % 65535
  nonzero : n ≢ 0 → r ≢ 0
  nothing : n ≡ 0 → r ≡ 0

fold_carries-Folded : (n : ℕ) → n < 2 ^ 32 → (r : ℕ) × (fold_carries 2 n ≡ some r) × Folded n r
fold_carries-Folded n h = elim (dec_lt n (2 ^ 16)) [
  | yes s ↦
      (n, fold_done 2 n s, record { small = s; same = refl; nonzero = λ z. z; nothing = λ z. z })
  | no b ↦ elim (dec_lt (n % 2 ^ 16 + n / 2 ^ 16) (2 ^ 16)) [
    | yes s ↦ (
      n % 2 ^ 16 + n / 2 ^ 16,
      fold_round 1 n (omega arith) h ∙ fold_done 1 _ s,
      record {
        small = s;
        same = omega arith;
        nonzero = λ z e. omega arith;
        nothing = λ z. omega arith;
      },
    )
    | no b' ↦
        let m : ℕ = n % 2 ^ 16 + n / 2 ^ 16 in
        (
          m % 2 ^ 16 + m / 2 ^ 16,
          fold_round 1 n (omega arith) h
              ∙ fold_round 0 m (omega arith) (omega arith)
              ∙ fold_done 0 _ (omega arith),
          record {
            small = omega arith;
            same = omega arith;
            nonzero = λ z e. omega arith;
            nothing = λ z. omega arith;
          },
        )
  ]
]

checksum_lem :
    (ws : List ℕ)
    → AreWords ws
    → length ws < 2 ^ 16
    → (r : ℕ) × (checksum ws ≡ some (65535 - r)) × Folded (total ws) r
unfolding checksum
checksum_lem ws h l =
    let fits : total ws < 2 ^ 32 = omega (arith, total_lt ws h) in
    let f = fold_carries-Folded (total ws) fits in
    let whole : sum_words 0 ws ≡ total ws = sum_words_lem 0 ws (omega arith) ∙ omega arith in
    (
      f.0,
      ap (λ s. Option.map (λ sum. u16 (not32 sum)) (fold_carries 2 s)) whole
          ∙ ap (Option.map (λ sum. u16 (not32 sum))) f.1
          ∙ ap some (omega (arith, f.2.small)),
      f.2,
    )

AreWords-append :
    (xs ys : List ℕ) {w : ℕ} → AreWords (xs ++ 0 ∷ ys) → w < 2 ^ 16 → AreWords (xs ++ w ∷ ys)
AreWords-append [] ys h l = (l, h.1)
AreWords-append (x ∷ xs) ys h l = (h.0, AreWords-append xs ys h.1 l)

cancels : {m r n s : ℕ} → Folded m r → Folded n s → n ≡ m + (65535 - r) → 65535 - s ≡ 0
cancels {m = m} {r = r} {n = n} {s = s} f g e = elim (ℕ_discrete m 0) [
  | yes z ↦ omega (arith, f.nothing z, g.same, g.small, g.nonzero (λ w. omega (arith, f.nothing z)))
  | no z ↦ omega (arith, f.same, f.small, g.same, g.small, g.nonzero (λ w. omega arith))
]

-- A header of less than 2 ^ 16 words whose checksum field is zero has a checksum, and with it in
-- the field the checksum is zero, which is what a receiver tests.
pub checksum-checksum :
    (xs ys : List ℕ)
    → AreWords (xs ++ 0 ∷ ys)
    → length (xs ++ 0 ∷ ys) < 2 ^ 16
    → (c : ℕ) × (checksum (xs ++ 0 ∷ ys) ≡ some c)
      × (c < 2 ^ 16)
      × (checksum (xs ++ c ∷ ys) ≡ some 0)
checksum-checksum xs ys h l =
    let f = checksum_lem (xs ++ 0 ∷ ys) h l in
    let g =
      checksum_lem (xs ++ (65535 - f.0) ∷ ys) (AreWords-append xs ys h (omega arith))
        (omega (arith, length-append xs (0 ∷ ys), length-append xs ((65535 - f.0) ∷ ys))) in
    let sums : total (xs ++ (65535 - f.0) ∷ ys) ≡ total (xs ++ 0 ∷ ys) + (65535 - f.0) =
      omega (arith, total-append xs (0 ∷ ys), total-append xs ((65535 - f.0) ∷ ys)) in
    (65535 - f.0, f.1, omega arith, g.1 ∙ ap some (cancels f.2 g.2 sums))
