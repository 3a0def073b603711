-- ===== src/Qp.antt =====
-- include/roce/roce.h and include/private/roce-private.h: the types of queue pairs and their
-- number in a packet's operation code.
pub mod Modify
pub mod Kept
pub mod Create
pub mod Destroy
pub mod Destroyed
pub mod Again
pub mod Created
pub mod Ending
use libroce.Base.{ℕ, Option, none, some}

-- `roce_qp_type`. A queue pair of the type `max` is marked as unused.
pub data QpType : Type 0 where
  smi gsi rc uc rd ud max : QpType

-- `roce_qp_type_to_ib`: the table has an entry for each type but `max`; `none` is a read past its
-- end.
unfoldable pub qp_type_to_ib : QpType → Option ℕ
qp_type_to_ib smi = some 0x3
qp_type_to_ib gsi = some 0x3
qp_type_to_ib rc = some 0x0
qp_type_to_ib uc = some 0x1
qp_type_to_ib rd = some 0x2
qp_type_to_ib ud = some 0x3
qp_type_to_ib max = none
