-- ===== src/Solve.antt =====
-- The constraint solver (internal/compiler/check/solve).
pub mod Worklist
