-- ===== src/Examples/Indexes.antt =====
-- Small indexes of both kinds, for src/index/.
use postgrust_sql.Prelude.{
  String, ◌≡◌, ◌≢◌, ◌↔◌, refl, Bool, true, false, List, [], ◌∷◌, ◌++◌, length, arith, string_eq,
  nat_eq,
}
use postgrust_sql.Prelude.Int.{pos}
use postgrust_sql.Prelude.Map
use postgrust_sql.Prelude.Map.{get, contains_key}
use postgrust_sql.Prelude.Set.{contains}
use postgrust_sql.Prelude.Result.{is_err}
use postgrust_sql.Core.Value.{Externals, Value, integer, text}
use postgrust_sql.Index.{
  Index, btree, hash, is_unique, insert, delete, search, insert_composite, search_composite,
  column_names,
}
use postgrust_sql.Index.Key.{hash_composite_key, btree_composite_key}
use postgrust_sql.Index.Buckets.{Buckets, rows_at, push_row}
use postgrust_sql.Index.Hash
use postgrust_sql.Index.Hash.{HashIndex}
use postgrust_sql.Index.BTree
use postgrust_sql.Index.BTree.{BTreeIndex, search_prefix, in_key_order}
use postgrust_sql.Index.Search.{
  IsValid, insert_fails_iff, delete-IsValid, search_composite-insert_composite,
}
use postgrust_sql.Index.Refinement.{
  Change, add, drop, Implements, run, log_run, rows_of, run-Implements,
}
use postgrust_sql.Index.Prefix.{search_prefix_finds, search_prefix_finds_longer}
use postgrust_sql.Index.Collisions.{composite_keys_collide}

-- payload types without values of interest
abbrev pub externals : Externals
externals = record {
  Real = Unit;
  Decimal = Unit;
  NaiveDate = Unit;
  NaiveDateTime = Unit;
  DateTimeUtc = Unit;
  UuidBytes = Unit;
  show_real = λ r. "0";
  show_real_padded = λ r. "0";
  show_decimal = λ d. "0";
  show_date = λ d. "2024-01-01";
  show_timestamp = λ t. "2024-01-01 00:00:00";
  show_timestamp_tz = λ t. "2024-01-01 00:00:00 UTC";
  show_uuid = λ u. "00000000";
  hex_encode = λ b. "";
  debug_real = λ r. "0";
  debug_uuid = λ u. "00000000";
  debug_decimal = λ d. "0";
  debug_date = λ d. "2024-01-01";
  debug_timestamp = λ t. "2024-01-01T00:00:00";
  debug_timestamp_tz = λ t. "2024-01-01T00:00:00Z";
  debug_text = λ s. s;
  debug_bytes = λ b. "[]";
}

-- a B-tree index on the columns
abbrev tree_index : List String → Bool → Buckets → BTreeIndex
tree_index columns unique entries = record {
  name = "idx";
  table_name = "t";
  column_names = columns;
  is_unique = unique;
  tree = entries;
}

abbrev hash_index : HashIndex
hash_index = record {
  name = "idx";
  table_name = "t";
  column_names = "a" ∷ [];
  is_unique = false;
  map = [];
}

abbrev ann : Value externals
ann = text "ann"

abbrev empty_unique : Index
empty_unique = btree (tree_index ("a" ∷ []) true [])

-- row 7 stored under "ann"
abbrev one_row : Index
one_row = btree (tree_index ("a" ∷ []) true (("Tann", 7 ∷ []) ∷ []))

one_row-IsValid : IsValid one_row
unfolding is_unique rows_at get
one_row-IsValid = record { nonempty = λ k. ground arith; single = λ u k. ground arith }

insert_fails_iff_example :
    (is_err (insert one_row ann 8) ≡ true)
    ↔ ((is_unique one_row ≡ true) × (search one_row ann ≢ []))
insert_fails_iff_example = insert_fails_iff {x = externals} 8 one_row ann one_row-IsValid

delete-IsValid_example : IsValid (delete one_row ann 7)
delete-IsValid_example = delete-IsValid {x = externals} 7 one_row ann one_row-IsValid

abbrev two_columns : Index
two_columns = btree (tree_index ("a" ∷ "b" ∷ []) false [])

abbrev two_columns_one_row : Index
two_columns_one_row = btree (tree_index ("a" ∷ "b" ∷ []) false (("Tann||Tx", 7 ∷ []) ∷ []))

search_composite-insert_composite_example :
    (2 ≡ length (column_names two_columns))
    × (search_composite two_columns_one_row (ann ∷ text "x" ∷ [])
        ≡ search_composite two_columns (ann ∷ text "x" ∷ []) ++ 7 ∷ [])
unfolding insert_composite BTree.insert_composite BTree.insert_key BTree.fits contains_key get
    btree_composite_key push_row rows_at Map.insert Map.remove
search_composite-insert_composite_example =
    search_composite-insert_composite {x = externals} 7 two_columns two_columns_one_row
      (ann ∷ text "x" ∷ []) refl

-- an empty hash index implements the empty log
empty-Implements : Implements externals (hash hash_index) (hash hash_index) []
unfolding is_unique search Hash.search rows_at get rows_of
empty-Implements = record { many = refl; same_keys = λ v. refl; answers = λ v. refl }

abbrev changes : List (Change externals)
changes = add (integer (pos 1)) 4 ∷ add (integer (pos 1)) 5 ∷ drop (integer (pos 1)) 4 ∷ []

run-Implements_example :
    Implements externals
      (hash hash_index)
      (run (hash hash_index) changes)
      (log_run (hash hash_index) [] changes)
run-Implements_example =
    run-Implements (hash hash_index) (hash hash_index) [] changes empty-Implements

search_prefix_finds_example :
    contains
      (search_prefix (tree_index ("a" ∷ "b" ∷ []) false (("Tann||Tx", 7 ∷ []) ∷ [])) (ann ∷ []))
      7
    ≡ true
unfolding btree_composite_key contains rows_at get
search_prefix_finds_example =
    search_prefix_finds (tree_index ("a" ∷ "b" ∷ []) false (("Tann||Tx", 7 ∷ []) ∷ [])) (ann ∷ []) 7
      (ann ∷ text "x" ∷ []) (omega arith) (omega arith) refl refl

search_prefix_finds_longer_example :
    contains
      (search_prefix {x = externals}
        (tree_index ("a" ∷ "b" ∷ []) false (("Tann||Tx", 7 ∷ []) ∷ []))
        (text "a" ∷ []))
      7
    ≡ true
unfolding btree_composite_key contains rows_at get
search_prefix_finds_longer_example =
    search_prefix_finds_longer {x = externals}
      (tree_index ("a" ∷ "b" ∷ []) false (("Tann||Tx", 7 ∷ []) ∷ [])) "a" "nn" (text "x") 7
      (omega arith) refl

composite_keys_collide_example :
    (hash_composite_key {x = externals} (text "a||b" ∷ text "c" ∷ [])
      ≡ hash_composite_key {x = externals} (text "a" ∷ text "b||c" ∷ []))
    × (btree_composite_key {x = externals} (text "a||Tb" ∷ text "c" ∷ [])
        ≡ btree_composite_key {x = externals} (text "a" ∷ text "b||Tc" ∷ []))
composite_keys_collide_example = composite_keys_collide externals "a" "b" "c"

abbrev hash_one_row : Index
hash_one_row = hash (record hash_index { map = ("1", 4 ∷ []) ∷ [] })
