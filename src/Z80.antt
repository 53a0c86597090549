-- ===== src/Z80.antt =====
-- The 8080/Z80 interpreter, src/shim/z80*.c.
pub mod State
pub mod Flags
pub mod Tables
pub mod Alu
pub mod Decode
pub mod Groups
pub mod Exec
pub mod Tests
