-- ===== src/Transaction.antt =====
-- src/transaction/: transaction identifiers, the set of active transactions, snapshots, and the
-- transaction of one connection.
pub mod Snapshot
pub mod Global
pub mod Manager
pub mod Session
