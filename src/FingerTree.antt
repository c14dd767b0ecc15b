-- ===== src/FingerTree.antt =====
-- internal/host/stdlib/fingertree.go: the sequence of the standard library, a finger tree with sizes.
pub mod Node
pub mod Ends
pub mod Concat
pub mod Index
pub mod Walk
mod Tests
