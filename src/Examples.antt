-- ===== src/Examples.antt =====
-- Concrete states and values on which the theorems are applied.
pub mod Transactions
pub mod Servers
pub mod Indexes
pub mod Pages
pub mod Managers
pub mod Conditions
pub mod Tables
pub mod Statements
pub mod Memory
