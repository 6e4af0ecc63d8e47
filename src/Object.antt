-- ===== src/Object.antt =====
-- cmd/erasure-object.go: the objects of one erasure set.
pub mod Placement
pub mod Meta
pub mod Commit
pub mod Parts
pub mod Put
pub mod Get
pub mod Range
pub mod Memory
mod Tests
