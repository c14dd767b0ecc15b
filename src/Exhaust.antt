-- ===== src/Exhaust.antt =====
-- internal/compiler/check/exhaust: the check of a case expression for missing and redundant patterns.
pub mod Pattern
pub mod Matrix
pub mod Search
mod Values
mod Declared
mod Rows
mod Records
mod Columns
mod Covering
mod Signatures
pub mod Typing
mod Steps
mod Wildcard
pub mod Soundness
pub mod Loop
pub mod Report
mod Limit
pub mod Depth
mod Tests
