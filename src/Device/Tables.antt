-- ===== src/Device/Tables.antt =====
-- The loop of `roce_init_device` over the tables.
use Prim.{tt}
use libroce.Base.{
  ℕ, zero, suc, ◌+◌, ◌≤◌, ◌==◌, ltb, ◌≡◌, ◌≢◌, refl, ap, ◌∙◌, List, [], ◌∷◌, length, ℤ, pos, negsuc,
  Bool, true, false, ◌&&◌, ◌||◌, not, if◌then◌else◌, arith, replicate, Bool-cases, inl, inr, ◌⊎◌,
}
use libroce.Resource.{Resource, init, max_general}
use libroce.Device.{Host, DevRes, inited, init_table, table_then, init_tables}

abbrev pub works : ℤ → Bool
works (pos zero) = true
works ret = false

-- Whether the table `i` can be made: its size is between the bounds and, where it is not 0, there
-- are a lock and memory for it.
abbrev pub is_made : Host → ℕ → DevRes → Bool
is_made h i w =
    not (ltb w.size w.min || ltb w.max w.size) && (w.size == 0 || (works (h.lock i) && h.memory i))

abbrev pub are_made : Host → ℕ → List DevRes → Bool
are_made h i [] = true
are_made h i (w ∷ ws) = is_made h i w && are_made h (i + 1) ws

-- A table of a size, with nothing in it.
abbrev pub IsEmpty : ℕ → Resource → Type 0
IsEmpty n t = (t.size ≡ n) × (t.addr ≡ replicate n 0)

-- A row of the table of sizes.
abbrev pub Fit : DevRes → Resource → Type 0
Fit w t = (w.min ≤ w.size) × (w.size ≢ 0 → IsEmpty w.size t)

abbrev pub Fits : List DevRes → List Resource → Type 0
Fits [] [] = Unit
Fits (w ∷ ws) (t ∷ ts) = Fit w t × Fits ws ts
Fits ws ts = ⊥

init_made :
    (t : Resource) (n : ℕ) (lock : ℤ) (memory : Bool)
    → n ≢ 0
    → n ≤ max_general
    → works lock ≡ true
    → memory ≡ true
    → inited (init t n lock memory) ≡ (true, record t { size = n; addr = replicate n 0 })
unfolding init
init_made t n (pos zero) true some_n small w m = rw within refl
  where
    within : (n == 0 || ltb max_general n) ≡ false
    within = ground arith
init_made t n (pos zero) false some_n small w m = absurd cc
init_made t n (pos (suc k)) memory some_n small w m = absurd cc
init_made t n (negsuc k) memory some_n small w m = absurd cc

init_fails :
    (t : Resource) (n : ℕ) (lock : ℤ) (memory : Bool)
    → (works lock && memory) ≡ false
    → (inited (init t n lock memory)).0 ≡ false
unfolding init
init_fails t n (pos zero) true w = absurd cc
init_fails t n (pos zero) false w = elim (Bool-cases (n == 0 || ltb max_general n)) [
  | inl e ↦ rw e refl
  | inr e ↦ rw e refl
]
init_fails t n (pos (suc k)) memory w = elim (Bool-cases (n == 0 || ltb max_general n)) [
  | inl e ↦ rw e refl
  | inr e ↦ rw e refl
]
init_fails t n (negsuc k) memory w = elim (Bool-cases (n == 0 || ltb max_general n)) [
  | inl e ↦ rw e refl
  | inr e ↦ rw e refl
]

-- The two tests in front of the call, and what they make of it.
module _ {A : Type 0} (a b : Bool) (p q x : A) where
  stopped : a ≡ true → (if a then p else if b then q else x) ≡ p
  stopped e = rw e refl

  skipped : a ≡ false → b ≡ true → (if a then p else if b then q else x) ≡ q
  skipped e f = rw (e, f) refl

  called : a ≡ false → b ≡ false → (if a then p else if b then q else x) ≡ x
  called e f = rw (e, f) refl

all_hold :
    (a b c d : Bool)
    → (not a && (b || (c && d))) ≡ true
    → (a ≡ false) × (b ≡ false → (c ≡ true) × (d ≡ true))
all_hold false true c d e = (refl, λ n. absurd cc)
all_hold false false true true e = (refl, λ n. (refl, refl))
all_hold false false true false e = absurd cc
all_hold false false false d e = absurd cc
all_hold true b c d e = absurd cc

one_fails :
    (a b c d : Bool)
    → (not a && (b || (c && d))) ≡ false
    → (a ≡ true) ⊎ ((a ≡ false) × (b ≡ false) × ((c && d) ≡ false))
one_fails true b c d e = inl refl
one_fails false true c d e = absurd cc
one_fails false false c d e = inr (refl, refl, e)

pub both_hold : (a b : Bool) → (a && b) ≡ true → (a ≡ true) × (b ≡ true)
both_hold true b e = (refl, e)
both_hold false b e = absurd cc

pub rest_fails : (a b : Bool) → a ≡ true → (a && b) ≡ false → b ≡ false
rest_fails true b e f = f
rest_fails false b e f = absurd cc

module _ (h : Host) (i : ℕ) (w : DevRes) (t : Resource) where
  abbrev outside : Bool
  outside = ltb w.size w.min || ltb w.max w.size

  init_table-Fit :
      w.max ≤ max_general
      → is_made h i w ≡ true
      → (t' : Resource) × (init_table h i w t ≡ (true, t')) × Fit w t'
  unfolding init_table
  init_table-Fit small e =
      let (within, both) = all_hold outside (w.size == 0) (works (h.lock i)) (h.memory i) e in
      elim (Bool-cases (w.size == 0)) [
        | inl z ↦ (
          t,
          skipped outside (w.size == 0) _ _ _ within z,
          (ground arith, λ nonzero. absurd (nonzero (ground arith))),
        )
        | inr nz ↦ (
          _,
          called outside (w.size == 0) _ _ _ within nz
              ∙ init_made t w.size (h.lock i) (h.memory i) (λ z. ground arith) (ground arith)
                  ((both nz).0) ((both nz).1),
          (ground arith, λ nonzero. (refl, refl)),
        )
      ]

  init_table_fails : is_made h i w ≡ false → (init_table h i w t).0 ≡ false
  unfolding init_table
  init_table_fails e = elim (one_fails outside (w.size == 0) (works (h.lock i)) (h.memory i) e) [
    | inl out ↦
        ap (λ (x : Bool × Resource). x.0) (stopped outside (w.size == 0) (false, t) (true, t) _ out)
    | inr (within, nz, no_room) ↦
        ap (λ (x : Bool × Resource). x.0)
          (called outside (w.size == 0) (false, t) (true, t) _ within nz)
        ∙ init_fails t w.size (h.lock i) (h.memory i) no_room
  ]

abbrev pub AreSmall : List DevRes → Type 0
AreSmall [] = Unit
AreSmall (w ∷ ws) = (w.max ≤ max_general) × AreSmall ws

pub init_tables-Fits :
    (h : Host) (i : ℕ) (ws : List DevRes) (ts : List Resource)
    → length ws ≡ length ts
    → AreSmall ws
    → are_made h i ws ≡ true
    → (ts' : List Resource) × (init_tables h i ws ts ≡ (true, ts')) × Fits ws ts'
unfolding init_tables
init_tables-Fits h i [] [] same small e = ([], refl, tt)
init_tables-Fits h i [] (t ∷ ts) same small e = absurd (omega arith)
init_tables-Fits h i (w ∷ ws) [] same small e = absurd (omega arith)
init_tables-Fits h i (w ∷ ws) (t ∷ ts) same (small, smalls) e =
    let (one, rest) = both_hold (is_made h i w) (are_made h (i + 1) ws) e in
    let (t', made, fit) = init_table-Fit h i w t small one in
    let (ts', mades, fits) = init_tables-Fits h (i + 1) ws ts (omega arith) smalls rest in
    (t' ∷ ts', rw (made, mades, init_tables) refl, (fit, fits))

pub init_tables_fails :
    (h : Host) (i : ℕ) (ws : List DevRes) (ts : List Resource)
    → length ws ≡ length ts
    → are_made h i ws ≡ false
    → (init_tables h i ws ts).0 ≡ false
unfolding init_tables
init_tables_fails h i [] [] same e = absurd cc
init_tables_fails h i [] (t ∷ ts) same e = absurd (omega arith)
init_tables_fails h i (w ∷ ws) [] same e = absurd (omega arith)
init_tables_fails h i (w ∷ ws) (t ∷ ts) same e = elim (Bool-cases (is_made h i w)) [
  | inl one ↦
      then_rest (init_table h i w t)
        (init_tables_fails h (i + 1) ws ts (omega arith) (rest_fails _ _ one e))
  | inr bad ↦ at_once (init_table h i w t) (init_table_fails h i w t bad)
]
  where
    then_rest :
        (x : Bool × Resource)
        → (init_tables h (i + 1) ws ts).0 ≡ false
        → (table_then x (init_tables h (i + 1) ws ts) ts).0 ≡ false
    then_rest (true, t') f = f
    then_rest (false, t') f = refl

    at_once :
        (x : Bool × Resource)
        → x.0 ≡ false
        → (table_then x (init_tables h (i + 1) ws ts) ts).0 ≡ false
    at_once (true, t') f = absurd cc
    at_once (false, t') f = refl
