-- ===== src/Ir.antt =====
-- internal/lang/ir: the order of the bindings of a program.
pub mod Deps
