-- ===== src/Unify.antt =====
-- internal/compiler/check/unify: the undo log of the unifier.
pub mod Trail
pub mod Levels
