-- ===== src/Index/BTree.antt =====
-- src/index/btree.rs: an index of the rows of a table by the tagged text of one or several columns.
use Prim.Native.Nat.{Ordering}
use Prim.Native.String.{◌++◌ as ◌+++◌, compare}
use text.Mathlib.Text.{starts_with}
use postgrust_sql.Prelude.{
  ℕ, String, Bool, not, ◌&&◌, Option, none, some, List, [], ◌∷◌, ◌++◌, ◌||◌, length, if◌then◌else◌,
  ltb, nat_beq, string_eq,
}
use postgrust_sql.Prelude.Result.{ok, err}
use postgrust_sql.Prelude.Int.{show_nat}
use postgrust_sql.Prelude.Map.{contains_key}
use postgrust_sql.Core.Error.{DbResult, unique_violation, parse_error}
use postgrust_sql.Core.Value.{Externals, Value}
use postgrust_sql.Index.Key.{btree_key, btree_composite_key}
use postgrust_sql.Index.Buckets
use postgrust_sql.Index.Buckets.{Buckets, rows_at, push_row, drop_row}

pub record BTreeIndex : Type 0 where
  pub name : String
  pub table_name : String
  pub column_names : List String
  pub is_unique : Bool
  pub tree : Buckets

-- `none` where the indexing `[0]` panics
unfoldable pub column_name : BTreeIndex → Option String
column_name idx = elim idx.column_names [ [] ↦ none | c ∷ _ ↦ some c ]

unfoldable pub is_composite : BTreeIndex → Bool
is_composite idx = ltb 1 (length idx.column_names)

unfoldable pub new : String → String → String → Bool → BTreeIndex
new name table_name column_name is_unique = record {
  name = name;
  table_name = table_name;
  column_names = column_name ∷ [];
  is_unique = is_unique;
  tree = [];
}

unfoldable pub new_composite : String → String → List String → Bool → BTreeIndex
new_composite name table_name column_names is_unique = record {
  name = name;
  table_name = table_name;
  column_names = column_names;
  is_unique = is_unique;
  tree = [];
}

duplicate : BTreeIndex → String
duplicate idx = "Duplicate key value violates unique constraint '" +++ (idx.name +++ "'")

-- the unique check and the push, which `insert` and `insert_composite` share
unfoldable pub insert_key : BTreeIndex → String → ℕ → DbResult BTreeIndex
unfolding duplicate
insert_key idx key row_index =
    if idx.is_unique && contains_key idx.tree key
    then err (unique_violation (duplicate idx))
    else ok (record idx { tree = push_row idx.tree key row_index })

unfoldable pub delete_key : BTreeIndex → String → ℕ → BTreeIndex
delete_key idx key row_index = record idx { tree = drop_row idx.tree key row_index }

unfoldable pub key_count : BTreeIndex → ℕ
key_count idx = Buckets.key_count idx.tree

unfoldable pub entry_count : BTreeIndex → ℕ
entry_count idx = Buckets.entry_count idx.tree

-- the number of values fits the number of columns
unfoldable pub fits : {x : Externals} → BTreeIndex → List (Value x) → Bool
fits idx values = nat_beq (length values) (length idx.column_names)

expected : ℕ → ℕ → String
unfolding show_nat
expected wanted got =
    "Expected " +++ (show_nat wanted +++ (" values for composite index, got " +++ show_nat got))

-- A `BTreeMap` iterates in the order of its keys: insertion sort by the order of texts.
unfoldable pub insert_in_order : String → List ℕ → Buckets → Buckets
insert_in_order key rows [] = (key, rows) ∷ []
insert_in_order key rows ((k, r) ∷ entries) =
    let rest = insert_in_order key rows entries in
    elim (compare key k) [ Ordering.lt ↦ (key, rows) ∷ (k, r) ∷ entries | _ ↦ (k, r) ∷ rest ]

unfoldable pub in_key_order : Buckets → Buckets
unfolding insert_in_order
in_key_order [] = []
in_key_order ((key, rows) ∷ entries) = insert_in_order key rows (in_key_order entries)

unfoldable pub clear : BTreeIndex → BTreeIndex
clear idx = record idx { tree = [] }

-- the loop of `search_prefix`, over the entries in the order of the map
unfoldable pub matching_rows : String → Buckets → List ℕ
matching_rows prefix [] = []
matching_rows prefix ((key, rows) ∷ entries) =
    let rest = matching_rows prefix entries in if starts_with key prefix then rows ++ rest else rest

module _ {x : Externals} where
  unfoldable pub insert : BTreeIndex → Value x → ℕ → DbResult BTreeIndex
  unfolding insert_key
  insert idx value row_index = insert_key idx (btree_key value) row_index

  unfoldable pub delete : BTreeIndex → Value x → ℕ → BTreeIndex
  unfolding delete_key
  delete idx value row_index = delete_key idx (btree_key value) row_index

  unfoldable pub search : BTreeIndex → Value x → List ℕ
  search idx value = rows_at idx.tree (btree_key value)

  unfoldable pub insert_composite : BTreeIndex → List (Value x) → ℕ → DbResult BTreeIndex
  unfolding insert_key fits expected
  insert_composite idx values row_index =
      if not (fits idx values)
      then err (parse_error (expected (length idx.column_names) (length values)))
      else insert_key idx (btree_composite_key values) row_index

  unfoldable pub delete_composite : BTreeIndex → List (Value x) → ℕ → BTreeIndex
  unfolding delete_key fits
  delete_composite idx values row_index =
      if not (fits idx values) then idx else delete_key idx (btree_composite_key values) row_index

  unfoldable pub search_composite : BTreeIndex → List (Value x) → List ℕ
  unfolding fits
  search_composite idx values =
      if not (fits idx values) then [] else rows_at idx.tree (btree_composite_key values)

  unfoldable pub contains : BTreeIndex → Value x → Bool
  contains idx value = contains_key idx.tree (btree_key value)

  unfoldable pub search_prefix : BTreeIndex → List (Value x) → List ℕ
  unfolding matching_rows in_key_order
  search_prefix idx values =
      if nat_beq (length values) 0 || ltb (length idx.column_names) (length values)
      then []
      else matching_rows (btree_composite_key values) (in_key_order idx.tree)
