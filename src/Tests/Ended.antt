-- ===== src/Tests/Ended.antt =====
-- A queue pair and the special one, each with the domain at 9 and the queue at 5.
use libroce.Base.{
  ℕ, zero, suc, ◌+◌, ◌≡◌, ◌≢◌, ◌==◌, refl, [], ◌∷◌, some, none, pos, arith, if◌then◌else◌, update,
}
use libroce.Resource.{Resource}
use libroce.Resource.Slots.{slot, IsValid}
use libroce.Counted.Takes.{held}
use libroce.Counted.Refs.{IsIn}
use libroce.Qp.{gsi, rc, max}
use libroce.Qp.Modify.{Qp, verify_qp_cap}
use libroce.Qp.Create.{Request, blank, create_qp}
use libroce.Qp.Destroy.{Held, destroy_qp, free_dev}
use libroce.Qp.Destroyed.{Stands, IsGone, destroy_qp-IsGone}
use libroce.Qp.Again.{Asks, again-none}
use libroce.Tests.Mr.{regions}
use libroce.Tests.Qp.{found, request, tables, one-IsValid}

abbrev standing : Qp
standing = record blank { qp_type = rc; pd = 9; scq = 5; rcq = 5 }

abbrev special_one : Qp
special_one = record standing { qp_type = gsi }

-- The special queue pair at 3, and another at 8, which hold a reference of the domain each and two
-- of the queue.
abbrev table : Resource
table = record {
  size = 3;
  addr = 4 ∷ 3 ∷ 8 ∷ [];
  handle = λ q. if q == 3 then 1 else if q == 8 then 2 else 0;
}

abbrev holding : Held
holding = record {
  tables = record tables {
    pds = record tables.pds { objects = record tables.pds.objects { ref = update (λ q. 0) 9 2 } };
    cqs = record tables.cqs { objects = record tables.cqs.objects { ref = update (λ q. 0) 5 4 } };
    qps = record {
      objects = record { table = table; ref = λ q. 0 };
      qp = λ q.
          if q == 8
          then standing
          else if q == 3
          then special_one
          else record blank { qp_type = max };
    };
  };
  mrs = regions;
  sq = λ q. [];
  rq = λ q. [];
  smi = 4;
  gsi = 3;
}

table-IsValid : IsValid table
table-IsValid = record { full = refl; knows = knows }
  where
    knows : (i : ℕ) → slot table i ≢ 0 → table.handle (slot table i) ≡ i
    knows zero n = refl
    knows (suc zero) n = refl
    knows (suc (suc zero)) n = refl
    knows (suc (suc (suc i))) n = absurd (n refl)

nine-IsIn : IsIn holding.tables.pds.objects 9
nine-IsIn = record { real = omega arith; at = refl }

five-IsIn : IsIn holding.tables.cqs.objects 5
five-IsIn = record { real = omega arith; at = refl }

standing-Stands : Stands holding 2 standing
standing-Stands = record {
  pds = one-IsValid 9;
  cqs = one-IsValid 5;
  qps = table-IsValid;
  real = omega arith;
  here = refl;
  pd = nine-IsIn;
  scq = five-IsIn;
  rcq = five-IsIn;
  no_sends = refl;
  no_receives = refl;
}

special_one-Stands : Stands holding 1 special_one
special_one-Stands = record {
  pds = one-IsValid 9;
  cqs = one-IsValid 5;
  qps = table-IsValid;
  real = omega arith;
  here = refl;
  pd = nine-IsIn;
  scq = five-IsIn;
  rcq = five-IsIn;
  no_sends = refl;
  no_receives = refl;
}

-- What the other queue pair holds.
destroy_qp-IsGone_example :
    (s' : Held) × (destroy_qp holding 2 ≡ some (pos 0, s'))
    × IsGone holding 2 (λ d. 0) (λ d. 0) (held 9) (λ d. held 5 d + held 5 d) s'
destroy_qp-IsGone_example =
    destroy_qp-IsGone holding 2 standing (λ d. 0) (λ d. 0) (held 9) (λ d. held 5 d + held 5 d)
      standing-Stands refl (λ d. ground arith) (λ d. ground arith)

abbrev again : Request
again = record request { qp_type = gsi }

asks : Asks found again holding.tables
unfolding verify_qp_cap
asks = record {
  qp_type = refl;
  cap = refl;
  pds = one-IsValid 9;
  cqs = one-IsValid 5;
  pd = omega arith;
  scq = omega arith;
}

again-none_example :
    (s' : Held) × (destroy_qp holding 1 ≡ some (pos 0, s'))
    × (create_qp found again s'.tables ≡ none)
again-none_example =
    again-none holding 1 special_one (λ d. 0) (λ d. 0) (held 9) (λ d. held 5 d + held 5 d) found
      again special_one-Stands refl refl refl asks (λ d. ground arith) (λ d. ground arith)

abbrev empty : Resource
empty = record { size = 0; addr = []; handle = λ q. 0 }

-- The special queue pair is destroyed first; the domain, the queue, a region and the other queue
-- pair are in use.
logged :
    free_dev empty empty empty holding
    ≡ some ((0 ∷ []) ∷ (0 ∷ []) ∷ (0 ∷ []) ∷ [] ∷ (2 ∷ []) ∷ [] ∷ [] ∷ [])
unfolding free_dev
logged = refl
