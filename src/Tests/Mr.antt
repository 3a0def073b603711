-- ===== src/Tests/Mr.antt =====
-- A table of one region of 64 bytes.
use Prim.{tt}
use libroce.Base.{◌≡◌, refl, [], ◌∷◌, some, pos, false, true, arith}
use libroce.Resource.{Resource}
use libroce.Sge.{Sge}
use libroce.Qp.{rc}
use libroce.Mr.{Mr, Mrs, mem, valid}
use libroce.Mr.Map.{map_sge}
use libroce.Mr.Access.{AllGranted, map_sge-AllGranted}

abbrev pub table : Resource
table = record { size = 1; addr = 7 ∷ []; handle = λ p. 0 }

abbrev pub region : Mr
region = record {
  mr_ctx = 0;
  pd = 9;
  state = valid;
  type = mem;
  iova = 0;
  length = 64;
  lkey = 5;
  rkey = 6;
  access = 3;
  page_size = 4096;
  iovs = record { base = 100000; len = 4096 } ∷ [];
}

abbrev pub regions : Mrs
regions = record { objects = record { table = table; ref = λ p. 1 }; mr = λ p. region }

abbrev pub element : Sge
element = record { addr = 0; length = 10; lkey = 5 }

mapped_one :
    map_sge (λ a n. a) regions 9 rc (element ∷ []) true 1 false
    ≡ some (pos 1, (0, record { base = 100000; len = 10 } ∷ []) ∷ [], false)
unfolding map_sge
mapped_one = refl

map_sge-AllGranted_example : AllGranted regions 9 rc true 1 (element ∷ [])
map_sge-AllGranted_example =
    map_sge-AllGranted (λ a n. a) regions 9 rc (element ∷ []) true 1 1 false false
      ((0, record { base = 100000; len = 10 } ∷ []) ∷ []) (λ p. omega arith) (omega arith, tt)
      mapped_one
