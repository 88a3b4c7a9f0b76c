-- ===== src/Storage.antt =====
-- src/storage/: pages of rows, the buffer pool over them, and tables made of pages.
pub mod Bytes
pub mod Page
pub mod BufferPool
pub mod PageManager
pub mod TablePage
pub mod PagedTable
pub mod DatabaseStorage
