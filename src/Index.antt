-- ===== src/Index.antt =====
-- src/index/mod.rs: one interface over the two kinds of index.
pub mod Buckets
pub mod Key
pub mod Hash
pub mod BTree
pub mod Search
pub mod Refinement
pub mod Prefix
pub mod Collisions
use postgrust_sql.Prelude.{ℕ, String, Bool, true, false, Option, none, some, List, if◌then◌else◌}
use postgrust_sql.Prelude.Result.{ok, ◌>>=◌}
use postgrust_sql.Core.Error.{DbResult}
use postgrust_sql.Core.Value.{Externals, Value}
use Hash.{HashIndex}
use BTree.{BTreeIndex}

pub data IndexType : Type 0 where
  btree_type hash_type : IndexType

unfoldable pub default : IndexType
default = btree_type

unfoldable pub as_str : IndexType → String
as_str btree_type = "btree"
as_str hash_type = "hash"

pub data Index : Type 0 where
  btree : BTreeIndex → Index
  hash : HashIndex → Index

unfoldable pub name : Index → String
name (btree idx) = idx.name
name (hash idx) = idx.name

unfoldable pub table_name : Index → String
table_name (btree idx) = idx.table_name
table_name (hash idx) = idx.table_name

unfoldable pub column_name : Index → Option String
column_name (btree idx) = BTree.column_name idx
column_name (hash idx) = Hash.column_name idx

unfoldable pub column_names : Index → List String
column_names (btree idx) = idx.column_names
column_names (hash idx) = idx.column_names

unfoldable pub is_unique : Index → Bool
is_unique (btree idx) = idx.is_unique
is_unique (hash idx) = idx.is_unique

unfoldable pub is_composite : Index → Bool
is_composite (btree idx) = BTree.is_composite idx
is_composite (hash idx) = Hash.is_composite idx

unfoldable pub index_type : Index → IndexType
index_type (btree _) = btree_type
index_type (hash _) = hash_type

module _ {x : Externals} where
  unfoldable pub insert : Index → Value x → ℕ → DbResult Index
  insert (btree idx) value row_index = do idx' ← BTree.insert idx value row_index; ok (btree idx')
  insert (hash idx) value row_index = do idx' ← Hash.insert idx value row_index; ok (hash idx')

  unfoldable pub delete : Index → Value x → ℕ → Index
  delete (btree idx) value row_index = btree (BTree.delete idx value row_index)
  delete (hash idx) value row_index = hash (Hash.delete idx value row_index)

  unfoldable pub search : Index → Value x → List ℕ
  search (btree idx) value = BTree.search idx value
  search (hash idx) value = Hash.search idx value

  unfoldable pub insert_composite : Index → List (Value x) → ℕ → DbResult Index
  insert_composite (btree idx) values row_index = do
    idx' ← BTree.insert_composite idx values row_index
    ok (btree idx')
  insert_composite (hash idx) values row_index = do
    idx' ← Hash.insert_composite idx values row_index
    ok (hash idx')

  unfoldable pub delete_composite : Index → List (Value x) → ℕ → Index
  delete_composite (btree idx) values row_index =
      btree (BTree.delete_composite idx values row_index)
  delete_composite (hash idx) values row_index = hash (Hash.delete_composite idx values row_index)

  unfoldable pub search_composite : Index → List (Value x) → List ℕ
  search_composite (btree idx) values = BTree.search_composite idx values
  search_composite (hash idx) values = Hash.search_composite idx values

  unfoldable pub search_prefix : Index → List (Value x) → Option (List ℕ)
  search_prefix (btree idx) values =
      if BTree.is_composite idx then some (BTree.search_prefix idx values) else none
  search_prefix (hash idx) values = none
