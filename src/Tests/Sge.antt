-- ===== src/Tests/Sge.antt =====
-- A buffer of two elements.
use Prim.{tt}
use libroce.Base.{◌≡◌, refl, [], ◌∷◌, some, arith, length}
use libroce.Iov.Span.{span}
use libroce.Sge.{Sge, sge_len}
use libroce.Sge.Advance.{Fits, iovs_from}
use libroce.Sge.Length.{sge_len-span}

abbrev first : Sge
first = record { addr = 1000; length = 10; lkey = 1 }

abbrev second : Sge
second = record { addr = 5000; length = 20; lkey = 2 }

two-Fits : Fits 4 (first ∷ second ∷ [])
two-Fits = (omega arith, omega arith, (omega arith, omega arith, tt))

sge_len-span_example :
    sge_len (first ∷ second ∷ []) 0 4 ≡ some (length (span (iovs_from 4 (first ∷ second ∷ []))))
sge_len-span_example =
    sge_len-span (first ∷ second ∷ []) first (second ∷ []) 0 4 refl two-Fits (omega arith)
