-- ===== src/Resource/Steps.antt =====
-- The life of a resource table: the calls that a client may make, in any order.
use libroce.Base.{
  ℕ, zero, suc, ◌≤◌, ◌<◌, ◌≡◌, ◌≢◌, refl, sym, ap, ◌∙◌, Option, none, some, pos, get_or, replicate,
  length, ◌==◌, ltb, leb, ◌||◌, true, false, Bool-cases, Option-cases, arith, inl, inr,
}
use libroce.Resource.{Resource, first_free, alloc, alloc_at, get, free, init, max_general}
use libroce.Resource.Slots.{
  slot, IsValid, IsFresh, get-slot, put-IsValid, clear-IsValid, first_free-some,
}
use libroce.Resource.Contract.{slot-get}

-- A table that has been set up, and what the calls make of it. An object is handed over once: it is
-- not in the table before.
pub data Reachable : Resource → Type 0 where
  ready :
      (r : Resource) (size : ℕ)
      → 0 < size
      → size ≤ max_general
      → Reachable ((init r size (pos 0) true).1)
  allocated : (r : Resource) (res : ℕ) → Reachable r → IsFresh r res → Reachable ((alloc r res).1)
  allocated_at :
      (r : Resource) (res index : ℕ)
      → Reachable r
      → IsFresh r res
      → Reachable ((alloc_at r res index).1)
  freed : (r : Resource) (index : ℕ) → Reachable r → Reachable ((free r index).1)

get_or-replicate : (n i : ℕ) → get_or (replicate {A = ℕ} n 0) i 0 ≡ 0
get_or-replicate zero i = refl
get_or-replicate (suc n) zero = refl
get_or-replicate (suc n) (suc i) = get_or-replicate n i

length-replicate : (n : ℕ) → length (replicate {A = ℕ} n 0) ≡ n
length-replicate zero = refl
length-replicate (suc n) = ap suc (length-replicate n)

init-IsValid :
    (r : Resource) (size : ℕ)
    → 0 < size
    → size ≤ max_general
    → IsValid ((init r size (pos 0) true).1)
unfolding init
init-IsValid r size lo hi =
    rw accepted
      (record { full = length-replicate size; knows = λ i n. absurd (n (get_or-replicate size i)) })
  where
    accepted : (size == 0 || ltb max_general size) ≡ false
    accepted = ground arith

alloc-IsValid : (r : Resource) (res : ℕ) → IsValid r → IsFresh r res → IsValid ((alloc r res).1)
unfolding alloc
alloc-IsValid r res v fresh = elim (Bool-cases (res == 0)) [
  | inl null ↦ rw null v
  | inr n ↦ elim (Option-cases (first_free r.size 0 r.addr)) [
    | inl e ↦ rw (n, e) v
    | inr (i, e) ↦
        rw (n, e)
          (put-IsValid r res i v fresh (omega (arith, (first_free-some r.size 0 i r.addr e).1)))
  ]
]

alloc_at-IsValid :
    (r : Resource) (res index : ℕ) → IsValid r → IsFresh r res → IsValid ((alloc_at r res index).1)
unfolding alloc_at
alloc_at-IsValid r res index v fresh = elim (Bool-cases (res == 0)) [
  | inl null ↦ rw null v
  | inr n ↦ elim (Bool-cases (leb r.size index)) [
    | inl past ↦ rw (n, past) v
    | inr within ↦ elim (Bool-cases (slot r index == 0)) [
      | inl z ↦ rw (n, within, z) (put-IsValid r res index v fresh (below within))
      | inr taken ↦ rw (n, within, taken) v
    ]
  ]
]
  where
    below : leb r.size index ≡ false → index < r.size
    below h = ground arith

free-IsValid : (r : Resource) (index : ℕ) → IsValid r → IsValid ((free r index).1)
unfolding free
free-IsValid r index v = elim (Bool-cases (leb r.size index)) [
  | inl past ↦ rw past v
  | inr within ↦ elim (Bool-cases (slot r index == 0)) [
    | inl z ↦ rw (within, z) v
    | inr n ↦ rw (within, n) (clear-IsValid r index v)
  ]
]

pub Reachable-IsValid : (r : Resource) → Reachable r → IsValid r
Reachable-IsValid _ (ready r size lo hi) = init-IsValid r size lo hi
Reachable-IsValid _ (allocated r res h fresh) = alloc-IsValid r res (Reachable-IsValid r h) fresh
Reachable-IsValid _ (allocated_at r res index h fresh) =
    alloc_at-IsValid r res index (Reachable-IsValid r h) fresh
Reachable-IsValid _ (freed r index h) = free-IsValid r index (Reachable-IsValid r h)

-- In every table that is reached from a set-up one by calls of alloc, alloc_at and free, each
-- object handed over while it is not in the table, no lookup fails its assertion, and no object is
-- found at two handles.
pub Reachable-get :
    (r : Resource)
    → Reachable r
    → ((i : ℕ) → get r i ≢ none)
      × ((i j res : ℕ) → res ≢ 0 → get r i ≡ some res → get r j ≡ some res → i ≡ j)
Reachable-get r h =
    let v = Reachable-IsValid r h in
    (
      (λ i e.
          let clash : ◌≡◌ {A = Option ℕ} (some (slot r i)) none = sym (get-slot r i v) ∙ e in cc),
      λ i j res n e e'.
          let at : slot r i ≡ res = slot-get r i res v e in
          let at' : slot r j ≡ res = slot-get r j res v e' in
          sym (v.knows i (λ z. n (sym at ∙ z)))
          ∙ ap r.handle (at ∙ sym at')
          ∙ v.knows j (λ z. n (sym at' ∙ z)),
    )
