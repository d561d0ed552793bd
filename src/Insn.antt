-- ===== src/Insn.antt =====
-- crates/rv64/src/insn: the decoders.
pub mod Fields
pub mod Rv64i
pub mod Rv64m
pub mod Rv64a
pub mod Rvc
