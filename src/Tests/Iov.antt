-- ===== src/Tests/Iov.antt =====
-- Scatter lists on concrete arrays.
use libroce.Base.{ℕ, ◌+◌, ◌≡◌, List, [], ◌∷◌, some, arith, length, take, drop}
use libroce.Iov.{Iov, Taken, copy, advance}
use libroce.Iov.Span.{span}
use libroce.Iov.Copy.{copy-span}
use libroce.Iov.Advance.{Front, advance-Front}

abbrev head : Iov
head = record { base = 1000; len = 8 }

abbrev tail : List Iov
tail = record { base = 0; len = 0 } ∷ record { base = 5000; len = 20 } ∷ []

copy-span_example :
    (ds : List Iov) × (copy (head ∷ tail) 4 10 ≡ some (ds, length ds))
    × (span ds ≡ take 10 (drop 4 (span (head ∷ tail))))
copy-span_example = copy-span head tail 4 10 (omega arith) (omega arith) (omega arith)

abbrev mem : ℕ → ℕ
mem a = a + 1

advance-Front_example :
    (t : Taken) × (advance mem (head ∷ tail) 10 ≡ some t) × Front mem (head ∷ tail) 10 0 t
advance-Front_example = advance-Front mem head tail 10 (omega arith)
