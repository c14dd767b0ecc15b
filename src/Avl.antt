-- ===== src/Avl.antt =====
-- internal/host/stdlib/avl.go: the persistent search tree under Map and Set. Keys and values are of
-- any types, since the tree never looks into them. A pointer is a tree and nil is `nil`.
pub mod Applier
pub mod Tree
pub mod Sorted
pub mod Search
pub mod Walk
pub mod Merge
pub mod Ints
mod Tests
