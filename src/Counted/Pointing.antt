-- ===== src/Counted/Pointing.antt =====
-- How many objects of a table point to another object.
use native.Mathlib.Decide.{ℕ_discrete}
use libroce.Base.{
  ℕ, zero, suc, ◌+◌, ◌≤◌, ◌<◌, ◌≡◌, ◌≢◌, refl, ap, ap₂, List, [], ◌∷◌, get_or, set, length, ◌==◌,
  if◌then◌else◌, update, update_ne, arith,
}

-- Whether the object `p`, where it is not null, points to `d`.
abbrev pub points : (ℕ → ℕ) → ℕ → ℕ → ℕ
points f d p = if p == 0 then 0 else if f p == d then 1 else 0

abbrev pub pointing : (ℕ → ℕ) → ℕ → List ℕ → ℕ
pointing f d [] = 0
pointing f d (p ∷ ps) = points f d p + pointing f d ps

points-le : (f : ℕ → ℕ) (d p : ℕ) → points f d p ≤ 1
points-le f d p = ground arith

pub points_one : (f : ℕ → ℕ) (d p : ℕ) → p ≢ 0 → f p ≡ d → points f d p ≡ 1
points_one f d p n e = ground arith

pub points_other : (f : ℕ → ℕ) (d p : ℕ) → f p ≢ d → points f d p ≡ 0
points_other f d p n = ground arith

pub points_null : (f : ℕ → ℕ) (d : ℕ) → points f d 0 ≡ 0
points_null f d = refl

module _ (f : ℕ → ℕ) (d : ℕ) where
  pub pointing-le : (ps : List ℕ) → pointing f d ps ≤ length ps
  pointing-le [] = omega arith
  pointing-le (p ∷ ps) = omega (arith, points-le f d p, pointing-le ps)

  pub pointing-set :
      (ps : List ℕ) (i v : ℕ)
      → i < length ps
      → pointing f d (set ps i v) + points f d (get_or ps i 0) ≡ pointing f d ps + points f d v
  pointing-set [] i v h = absurd (omega arith)
  pointing-set (p ∷ ps) zero v h = omega arith
  pointing-set (p ∷ ps) (suc i) v h = omega (arith, pointing-set ps i v (omega arith))

  -- One that points there is counted.
  pub pointing-some :
      (ps : List ℕ) (i : ℕ) → get_or ps i 0 ≢ 0 → f (get_or ps i 0) ≡ d → 0 < pointing f d ps
  pointing-some [] i n e = absurd (n refl)
  pointing-some (p ∷ ps) zero n e = omega (arith, points_one f d p n e)
  pointing-some (p ∷ ps) (suc i) n e = omega (arith, pointing-some ps i n e)

  -- A field of an object that is not in the table does not matter.
  pub pointing-update :
      (ps : List ℕ) (p v : ℕ)
      → ((i : ℕ) → get_or ps i 0 ≢ p)
      → pointing (update f p v) d ps ≡ pointing f d ps
  pointing-update [] p v fresh = refl
  pointing-update (q ∷ ps) p v fresh =
      ap₂ ◌+◌
        (ap (λ x. if q == 0 then 0 else if x == d then 1 else 0) (update_ne f p v q (fresh 0)))
        (pointing-update ps p v (λ i. fresh (suc i)))

  -- None that points there is counted as none.
  pub pointing_none :
      (ps : List ℕ) → ((i : ℕ) → get_or ps i 0 ≢ 0 → f (get_or ps i 0) ≢ d) → pointing f d ps ≡ 0
  pointing_none [] n = refl
  pointing_none (p ∷ ps) n = omega (arith, head (ℕ_discrete p 0), pointing_none ps (λ i. n (suc i)))
    where
      head : Dec (p ≡ 0) → points f d p ≡ 0
      head (yes z) = ground arith
      head (no m) = points_other f d p (n 0 m)
