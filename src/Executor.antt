-- ===== src/Executor.antt =====
-- src/executor/: what the statements do to rows.
pub mod Like
pub mod Compare
pub mod Subquery
pub mod Condition
pub mod Dml
pub mod StorageAdapter
pub mod Vacuum
