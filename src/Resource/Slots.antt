-- ===== src/Resource/Slots.antt =====
-- What the operations of a resource table do to its slots, seen as a partial map from handles to
-- objects.
use libroce.Base.{
  ℕ, zero, suc, ◌+◌, ◌≤◌, ◌<◌, ◌≡◌, ◌≢◌, refl, sym, ap, ◌∙◌, List, [], ◌∷◌, Option, none, some,
  get_or, set, length, length-set, ◌==◌, leb, true, false, Bool-cases, arith, inl, inr, leb→le,
  ==_iff,
}
use native.Mathlib.Decide.{ℕ_discrete}
use libroce.Resource.{Resource, first_free, get, put, write}

-- The object at a handle, 0 where there is none.
abbrev pub slot : Resource → ℕ → ℕ
slot r i = get_or r.addr i 0

-- The array has as many entries as `size` says, and an object knows the slot that it is in.
pub record IsValid (r : Resource) : Type 0 where
  pub full : length r.addr ≡ r.size
  pub knows : (i : ℕ) → slot r i ≢ 0 → r.handle (slot r i) ≡ i

-- An object that no slot holds.
abbrev pub IsFresh : Resource → ℕ → Type 0
IsFresh r res = (i : ℕ) → slot r i ≢ res

pub get_or-set_self : (xs : List ℕ) (i v : ℕ) → i < length xs → get_or (set xs i v) i 0 ≡ v
get_or-set_self [] i v h = absurd (omega arith)
get_or-set_self (x ∷ xs) zero v h = refl
get_or-set_self (x ∷ xs) (suc i) v h = get_or-set_self xs i v (omega arith)

pub get_or-set_ne : (xs : List ℕ) (i j v : ℕ) → i ≢ j → get_or (set xs i v) j 0 ≡ get_or xs j 0
get_or-set_ne [] i j v h = refl
get_or-set_ne (x ∷ xs) zero zero v h = absurd (h refl)
get_or-set_ne (x ∷ xs) zero (suc j) v h = refl
get_or-set_ne (x ∷ xs) (suc i) zero v h = refl
get_or-set_ne (x ∷ xs) (suc i) (suc j) v h = get_or-set_ne xs i j v (λ e. h (ap suc e))

pub get_or-past : (xs : List ℕ) (i : ℕ) → length xs ≤ i → get_or xs i 0 ≡ 0
get_or-past [] i h = refl
get_or-past (x ∷ xs) zero h = absurd (omega arith)
get_or-past (x ∷ xs) (suc i) h = get_or-past xs i (omega arith)

write_self : (handle : ℕ → ℕ) (res i : ℕ) → write handle res i res ≡ i
write_self handle res i = ground arith

write_ne : (handle : ℕ → ℕ) (res i p : ℕ) → p ≢ res → write handle res i p ≡ handle p
write_ne handle res i p h = ground arith

-- An object put in a slot.
pub put-IsValid :
    (r : Resource) (res i : ℕ) → IsValid r → IsFresh r res → i < r.size → IsValid (put r res i)
put-IsValid r res i v fresh h = record {
  full = length-set r.addr i res ∙ v.full;
  knows = λ j n. elim (ℕ_discrete i j) [
    | yes e ↦
        ap (write r.handle res i) (
          ap (λ k. get_or (set r.addr i res) k 0) (sym e)
          ∙ get_or-set_self r.addr i res (omega (arith, v.full)))
        ∙ write_self r.handle res i
        ∙ e
    | no ne ↦ other j ne n
  ];
}
  where
    other :
        (j : ℕ) → i ≢ j → slot (put r res i) j ≢ 0 → write r.handle res i (slot (put r res i) j) ≡ j
    other j ne n =
        ap (write r.handle res i) same
        ∙ write_ne r.handle res i (slot r j) (fresh j)
        ∙ v.knows j (λ e. n (same ∙ e))
      where
        same : slot (put r res i) j ≡ slot r j
        same = get_or-set_ne r.addr i j res ne

-- One round of the search.
first_free_here :
    (left i : ℕ) (addr : List ℕ) → get_or addr i 0 ≡ 0 → first_free (suc left) i addr ≡ some i
unfolding first_free
first_free_here left i addr h = rw test refl
  where
    test : (get_or addr i 0 == 0) ≡ true
    test = ground arith

first_free_later :
    (left i : ℕ) (addr : List ℕ)
    → get_or addr i 0 ≢ 0
    → first_free (suc left) i addr ≡ first_free left (i + 1) addr
unfolding first_free
first_free_later left i addr h = rw test refl
  where
    test : (get_or addr i 0 == 0) ≡ false
    test = ground arith

-- What the search finds: a slot that is free, behind none that is.
pub first_free-some :
    (left i j : ℕ) (addr : List ℕ)
    → first_free left i addr ≡ some j
    → (i ≤ j)
      × (j < i + left)
      × (get_or addr j 0 ≡ 0)
      × ((k : ℕ) → i ≤ k → k < j → get_or addr k 0 ≢ 0)
first_free-some zero i j addr e = unfold first_free in cc
first_free-some (suc left) i j addr e = elim (ℕ_discrete (get_or addr i 0) 0) [
  | yes here ↦
      let same : ◌≡◌ {A = Option ℕ} (some i) (some j) =
        sym (first_free_here left i addr here) ∙ e in
      let at : i ≡ j = cc in
      (
        omega arith,
        omega arith,
        ap (λ k. get_or addr k 0) (sym at) ∙ here,
        λ k lo hi. absurd (omega arith),
      )
  | no used ↦
      let r = first_free-some left (i + 1) j addr (sym (first_free_later left i addr used) ∙ e) in
      (
        omega (arith, r.0),
        omega (arith, r.1),
        r.2,
        λ k lo hi. elim (ℕ_discrete i k) [
          | yes e' ↦ λ z. used (ap (λ m. get_or addr m 0) e' ∙ z)
          | no ne ↦ r.3 k (omega arith) hi
        ],
      )
]

pub first_free-none :
    (left i : ℕ) (addr : List ℕ)
    → first_free left i addr ≡ none
    → (k : ℕ) → i ≤ k
    → k < i + left
    → get_or addr k 0 ≢ 0
first_free-none zero i addr e k lo hi = absurd (omega arith)
first_free-none (suc left) i addr e k lo hi = elim (ℕ_discrete (get_or addr i 0) 0) [
  | yes here ↦
      let found : ◌≡◌ {A = Option ℕ} (some i) none = sym (first_free_here left i addr here) ∙ e in
      cc
  | no used ↦ elim (ℕ_discrete i k) [
    | yes e' ↦ λ z. used (ap (λ m. get_or addr m 0) e' ∙ z)
    | no ne ↦
        first_free-none left (i + 1) addr (sym (first_free_later left i addr used) ∙ e) k
          (omega arith) (omega arith)
  ]
]

-- On a valid table a lookup never fails its assertion: it returns the object in the slot, or the
-- null pointer for a slot that is free or out of range.
pub get-slot : (r : Resource) (i : ℕ) → IsValid r → get r i ≡ some (slot r i)
unfolding get
get-slot r i v = elim (Bool-cases (leb r.size i)) [
  | inl past ↦
      rw past (ap some (sym (get_or-past r.addr i (omega (arith, v.full, leb→le r.size i past)))))
  | inr within ↦ elim (ℕ_discrete (slot r i) 0) [
    | yes z ↦ rw (within, (==_iff (slot r i) 0).1 z) (ap some (sym z))
    | no n ↦ rw (within, used n, (==_iff (r.handle (slot r i)) i).1 (v.knows i n)) refl
  ]
]
  where
    used : slot r i ≢ 0 → (slot r i == 0) ≡ false
    used n = ground arith

pub get_or-clear : (xs : List ℕ) (i : ℕ) → get_or (set xs i 0) i 0 ≡ 0
get_or-clear [] i = refl
get_or-clear (x ∷ xs) zero = refl
get_or-clear (x ∷ xs) (suc i) = get_or-clear xs i

abbrev pub clear : Resource → ℕ → Resource
clear r i = record r { addr = set r.addr i 0 }

pub clear-IsValid : (r : Resource) (i : ℕ) → IsValid r → IsValid (clear r i)
clear-IsValid r i v = record {
  full = length-set r.addr i 0 ∙ v.full;
  knows = λ j n. elim (ℕ_discrete i j) [
    | yes e ↦ absurd (n (ap (slot (clear r i)) (sym e) ∙ get_or-clear r.addr i))
    | no ne ↦
        let same : slot (clear r i) j ≡ slot r j = get_or-set_ne r.addr i j 0 ne in
        ap r.handle same ∙ v.knows j (λ z. n (same ∙ z))
  ];
}
