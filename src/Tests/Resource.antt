-- ===== src/Tests/Resource.antt =====
-- A resource table of two slots.
use libroce.Base.{
  ℕ, zero, suc, ◌<◌, ◌≤◌, ◌≡◌, ◌≢◌, ◌⊎◌, refl, [], ◌∷◌, none, some, pos, einval, ebusy, arith, true,
}
use libroce.Resource.{Resource, alloc, alloc_at, get, free, init}
use libroce.Resource.Slots.{slot, IsValid, IsFresh}
use libroce.Resource.Contract.{Updated, alloc-Updated, alloc_at-Updated, free-Updated}
use libroce.Resource.Steps.{Reachable, ready, allocated, Reachable-get}

-- The object at the address 7 has the handle 0.
abbrev table : Resource
table = record { size = 2; addr = 7 ∷ 0 ∷ []; handle = λ p. 0 }

table-IsValid : IsValid table
table-IsValid = record { full = refl; knows = knows }
  where
    knows : (i : ℕ) → slot table i ≢ 0 → 0 ≡ i
    knows zero n = refl
    knows (suc zero) n = absurd (n refl)
    knows (suc (suc i)) n = absurd (n refl)

nine-IsFresh : IsFresh table 9
nine-IsFresh zero e = omega arith
nine-IsFresh (suc zero) e = omega arith
nine-IsFresh (suc (suc i)) e = omega arith

nine_ne_zero : 9 ≢ zero
nine_ne_zero e = omega arith

alloc-Updated_example :
    ((i : ℕ) × (r' : Resource) × (alloc table 9 ≡ (pos i, r'))
      × (i < 2)
      × (get table i ≡ some 0)
      × ((k : ℕ) → k < i → get table k ≢ some 0)
      × Updated table i 9 r')
    ⊎ ((alloc table 9 ≡ (ebusy, table)) × ((k : ℕ) → k < 2 → get table k ≢ some 0))
alloc-Updated_example = alloc-Updated table 9 table-IsValid nine-IsFresh nine_ne_zero

alloc_at-Updated_example :
    (2 ≤ 1 → alloc_at table 9 1 ≡ (einval, table))
    × (1 < 2 → get table 1 ≢ some 0 → alloc_at table 9 1 ≡ (ebusy, table))
    × (1 < 2
        → get table 1 ≡ some 0
        → (r' : Resource) × (alloc_at table 9 1 ≡ (pos 1, r')) × Updated table 1 9 r')
alloc_at-Updated_example = alloc_at-Updated table 9 1 table-IsValid nine-IsFresh nine_ne_zero

free-Updated_example :
    (get table 0 ≢ some 0 → (r' : Resource) × (free table 0 ≡ (pos 0, r')) × Updated table 0 0 r')
    × (get table 0 ≡ some 0 → free table 0 ≡ (einval, table))
free-Updated_example = free-Updated table 0 table-IsValid

abbrev blank : Resource
blank = record { size = 0; addr = []; handle = λ p. 0 }

abbrev fresh_table : Resource
fresh_table = (init blank 2 (pos 0) true).1

fresh_table-Reachable : Reachable fresh_table
fresh_table-Reachable = ready blank 2 (omega arith) (omega arith)

seven-IsFresh : IsFresh fresh_table 7
unfolding init
seven-IsFresh zero e = omega arith
seven-IsFresh (suc zero) e = omega arith
seven-IsFresh (suc (suc i)) e = omega arith

abbrev used_table : Resource
used_table = (alloc fresh_table 7).1

Reachable-get_example :
    ((i : ℕ) → get used_table i ≢ none)
    × ((i j res : ℕ) → res ≢ 0 → get used_table i ≡ some res → get used_table j ≡ some res → i ≡ j)
Reachable-get_example =
    Reachable-get used_table (allocated fresh_table 7 fresh_table-Reachable seven-IsFresh)
