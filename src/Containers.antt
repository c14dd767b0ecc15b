-- ===== src/Containers.antt =====
-- internal/host/stdlib/map.go and set.go: the primitives of Data.Map and Data.Set.
pub mod MapVal
pub mod Map
pub mod Set
mod Tests
