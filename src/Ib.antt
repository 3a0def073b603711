-- ===== src/Ib.antt =====
-- include/spec/ib-spec.h: the InfiniBand transport headers.
pub mod Bth
pub mod Opcode
pub mod Rdeth
pub mod Deth
pub mod Reth
pub mod Atomiceth
pub mod Xrceth
pub mod Aeth
pub mod Atomicacketh
pub mod Immdt
pub mod Ieth
