-- ===== src/Tests/Pd.antt =====
-- One protection domain, at the address 9, and an address handle at 7 that points to it.
use libroce.Base.{ℕ, zero, suc, ◌+◌, ◌≡◌, ◌≢◌, refl, sym, subst, [], ◌∷◌, some, ebusy, arith}
use libroce.Resource.{Resource}
use libroce.Resource.Slots.{slot, IsValid}
use libroce.Counted.Pointing.{pointing}
use libroce.Pd.{Pds, dealloc_pd}
use libroce.Pd.Sound.{InSlot}
use libroce.Pd.Calls.{SoundAhs, Succeeds}
use libroce.Pd.Safety.{Call, run, IsFair, run-Sound}
use libroce.Ah.{Ahs, AhAttr}

abbrev one : ℕ → Resource
one p = record { size = 1; addr = p ∷ []; handle = λ q. 0 }

abbrev pds : Pds
pds = record { objects = record { table = one 9; ref = λ p. 1 }; pd_ctx = λ p. 0 }

abbrev attr : AhAttr
attr = record {
  gid = [];
  mac = [];
  flow_label = 0;
  sgid_index = 0;
  hop_limit = 64;
  traffic_class = 0;
  port_num = 1;
}

abbrev ahs : Ahs
ahs = record {
  objects = record { table = one 7; ref = λ p. 0 };
  pd = λ p. 9;
  attr = λ p. attr;
  ah_ctx = λ p. 0;
}

one-IsValid : (p : ℕ) → IsValid (one p)
one-IsValid p = record { full = refl; knows = knows }
  where
    knows : (i : ℕ) → slot (one p) i ≢ 0 → 0 ≡ i
    knows zero n = refl
    knows (suc i) n = absurd (n refl)

in_one : (p d i : ℕ) → slot (one p) i ≡ d → d ≢ 0 → p ≡ d
in_one p d zero e n = e
in_one p d (suc i) e n = absurd (n (sym e))

tables-Sound : SoundAhs pds ahs (λ d. 0)
tables-Sound = record {
  pds_valid = one-IsValid 9;
  table_valid = one-IsValid 7;
  small = omega arith;
  counts = counts;
  live = λ i n. (λ z. omega arith, (0, refl));
  held = λ d n. absurd (n refl);
}
  where
    counts : (d : ℕ) → d ≢ 0 → InSlot (one 9) d → 1 ≡ pointing (λ p. 9) d (7 ∷ []) + 0
    counts d n (i, at) = subst (λ x. 1 ≡ pointing (λ p. 9) x (7 ∷ []) + 0) (in_one 9 d i at n) refl

run-Sound_example :
    ((c : Call) → IsFair c pds ahs → Succeeds (λ d. 0) (run c pds ahs))
    × ((i j : ℕ) → slot (one 7) j ≢ 0 → 9 ≡ slot (one 9) i → dealloc_pd pds i ≡ some (ebusy, pds))
run-Sound_example = run-Sound pds ahs (λ d. 0) tables-Sound (λ d. omega arith)
