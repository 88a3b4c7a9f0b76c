-- ===== src/Lib.antt =====
-- Verification library of postgrust-sql, a PostgreSQL-compatible database server in Rust.
--
-- The program. A connection (src/network/server.rs) parses SQL (src/parser) and executes it
-- (src/executor) on a ServerInstance (src/core) under a lock. Transactions get their identifiers and
-- snapshots from a GlobalTransactionManager (src/transaction), rows carry the identifiers of the
-- transactions that created and deleted them (src/core/row.rs), and a snapshot decides which of them
-- a statement sees. Rows lie on pages of 8 KB (src/storage); indexes (src/index) map the text of
-- column values to row numbers. The executors of INSERT, UPDATE and DELETE (src/executor/dml.rs) work on
-- the rows through the trait RowStorage, which a table of pages implements; VACUUM removes the rows
-- that are dead for every transaction.
--
-- The files.
-- - Prelude: the shared types. Prelude.Lists is Vec, Prelude.Map is HashMap as an association list,
--   Prelude.Set is HashSet as a list without order, Prelude.Result is Result, Prelude.Int is i64 with
--   its decimal texts, Prelude.Tests the Boolean tests.
-- - Transaction.Global and Transaction.Snapshot: GlobalTransactionManager and Snapshot of
--   src/transaction/global_manager.rs. Each method is one step on the pair of the counter and the set
--   of active identifiers. Global.Invariant has the runs of these steps, Global.History the
--   lists of calls and what the state and its snapshots are after them, Global.Isolation what snapshots
--   show, Global.Horizon what VACUUM may remove.
-- - Transaction.Manager and Transaction.Session: src/transaction/manager.rs and snapshot.rs.
-- - Core: one file for each file of src/core. Row is row.rs with the visibility tests, Grants the map
--   of privileges that table_metadata.rs and database_metadata.rs share, Table also the types of
--   data_type.rs, column.rs and constraints.rs. Core.Server is server_instance.rs; its children are
--   the collection of inherited roles (Roles, Collect, Closure), the permission checks (Permissions,
--   Access) and the membership of roles (Membership). Core.Ownership is about the metadata of tables.
-- - Index: src/index/mod.rs, over Index.Hash (hash.rs) and Index.BTree (btree.rs), which share
--   Index.Buckets and the keys of Index.Key. Index.Search, Index.Prefix, Index.Collisions and
--   Index.Refinement are about what searches return.
-- - Storage.Page: src/storage/page.rs; its children are about the layout of a page, rows that are
--   inserted, and rows that are changed. Storage.Bytes has the slices of bytes.
-- - Storage.BufferPool: src/storage/buffer_pool.rs. Storage.PageManager: src/storage/page_manager.rs.
--   A closure on `&mut Page` is a function to its result and the page that it leaves. Its child View
--   says what the answer for a page is, in memory or in its file; Moves, Stores, Insertion, Eviction, Reads, Flush, Updates,
--   Checkpoint and Tables are about the operations against these answers. Helpers such as after_read
--   and after_lookup are the rest of a method after a call.
-- - Storage.TablePage and Storage.PagedTable: src/storage/paged_table.rs, first the closures on one
--   page, then the methods on a table. A table is passed along with the page manager of its database.
--   Access says what the answers for its pages hold; Attempts, Content, Insertion and Refusals are
--   about insertions, Slots, Sweep and Vacuum about the removal of dead rows. Storage.DatabaseStorage
--   is src/storage/database_storage.rs.
-- - Executor.Condition: the type Condition of src/parser/statement.rs and its evaluation in
--   src/executor/conditions.rs, over Executor.Like (patterns of LIKE), Executor.Compare (equality and
--   order of values) and Executor.Subquery (src/executor/subquery.rs).
-- - Executor.Dml: src/executor/dml.rs, first the values of an INSERT before they are stored. Its
--   children Insert, Update and Delete are the three statements on a Session, the state that they
--   change; Storage is the trait RowStorage of src/executor/storage_adapter.rs with its laws; Coercion,
--   Uniqueness, Sequences, Advance, Insertion, Commit, Selection and Endings are about them.
--   Executor.StorageAdapter fills the trait with a table of pages, and proves its laws.
-- - Executor.Vacuum: src/executor/vacuum.rs.
-- - Examples: concrete states.
--
-- Methods on `&mut self` return the new state. `Result` and `Option` are kept; in Storage.Page an
-- outcome is also a panic, where the source indexes or slices out of range or unwraps an error; a
-- closure that panics ends the call. The executors have the same outcomes. The field `data` of a
-- page is called `bytes`. Machine integers are natural numbers with the wrap-around written out;
-- timestamps and hashes are not looked into.
--
-- Parameters. Core.Value.Externals has the types and texts of the crates chrono, uuid, rust_decimal
-- and hex and of floats. Storage.Page.Bincode has the encoding of rows and headers by the crate
-- bincode, of which it is known only that a header takes 20 bytes: a row with a NUMERIC value is encoded
-- but, by the features of the crates that the program chooses, not decoded, so that theorems on rows
-- that are read back name the row's decoding, or assume Storage.Page.Decodes of this one row. Storage.PageManager.PageFiles has the encoding of whole pages, which does not fail and is
-- decoded to what was encoded. Executor.Compare.Comparisons
-- has the comparisons of floats and of the crates' types. Executor.Subquery.Queries has the SELECT of a
-- subquery, which is not modelled. RowStorage is an interface that the statements take, with laws that
-- only the theorems on INSERT need. The SHA-256 of the crate sha2 is an argument of the functions on passwords.
--
-- Fuel. Only the collection of inherited roles takes fuel: one more than the number of names among
-- the user's roles and the roles that some role inherits. Each call that goes deeper enters a new one
-- of these names, so that the fuel is enough, and Core.Server.Closure proves it.
--
-- Iteration over a HashMap of indexes or tables is that over the association list. The write-ahead
-- log of an INSERT is the list of the logged rows, and its writing does not fail.
--
-- Not modelled: the SQL parser, SELECT and the other executors, the check of foreign keys, the
-- network protocol, the client programs, and the files of the write-ahead log; errors of the operating
-- system on page files; locks, since every method runs with the lock of its object held.
pub mod Prelude
pub mod Transaction
pub mod Core
pub mod Index
pub mod Storage
pub mod Examples
pub mod Executor
