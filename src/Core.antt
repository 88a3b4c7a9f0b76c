-- ===== src/Core.antt =====
-- src/core/: the data model, users, roles and privileges.
pub mod Error
pub mod Value
pub mod Row
pub mod Privilege
pub mod Grants
pub mod User
pub mod Role
pub mod TableMetadata
pub mod DatabaseMetadata
pub mod Table
pub mod Database
pub mod Ownership
pub mod Server
