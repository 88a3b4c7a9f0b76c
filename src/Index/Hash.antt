-- ===== src/Index/Hash.antt =====
-- src/index/hash.rs: an index of the rows of a table by the `Display` text of one or several columns.
use Prim.Native.String.{◌++◌}
use postgrust_sql.Prelude.{
  ℕ, String, Bool, not, ◌&&◌, Option, none, some, List, [], ◌∷◌, length, if◌then◌else◌, ltb,
  nat_beq, string_eq,
}
use postgrust_sql.Prelude.Result.{ok, err}
use postgrust_sql.Prelude.Int.{show_nat}
use postgrust_sql.Prelude.Map.{contains_key}
use postgrust_sql.Core.Error.{DbResult, unique_violation, parse_error}
use postgrust_sql.Core.Value.{Externals, Value}
use postgrust_sql.Index.Key.{hash_key, hash_composite_key}
use postgrust_sql.Index.Buckets
use postgrust_sql.Index.Buckets.{Buckets, rows_at, push_row, drop_row}

pub record HashIndex : Type 0 where
  pub name : String
  pub table_name : String
  pub column_names : List String
  pub is_unique : Bool
  pub map : Buckets

-- `none` where the indexing `[0]` panics
unfoldable pub column_name : HashIndex → Option String
column_name idx = elim idx.column_names [ [] ↦ none | c ∷ _ ↦ some c ]

unfoldable pub is_composite : HashIndex → Bool
is_composite idx = ltb 1 (length idx.column_names)

unfoldable pub new : String → String → String → Bool → HashIndex
new name table_name column_name is_unique = record {
  name = name;
  table_name = table_name;
  column_names = column_name ∷ [];
  is_unique = is_unique;
  map = [];
}

unfoldable pub new_composite : String → String → List String → Bool → HashIndex
new_composite name table_name column_names is_unique = record {
  name = name;
  table_name = table_name;
  column_names = column_names;
  is_unique = is_unique;
  map = [];
}

duplicate : HashIndex → String
duplicate idx = "Duplicate key value violates unique constraint \"" ++ (idx.name ++ "\"")

-- the unique check and the push, which `insert` and `insert_composite` share
unfoldable pub insert_key : HashIndex → String → ℕ → DbResult HashIndex
unfolding duplicate
insert_key idx key row_index =
    if idx.is_unique && contains_key idx.map key
    then err (unique_violation (duplicate idx))
    else ok (record idx { map = push_row idx.map key row_index })

unfoldable pub delete_key : HashIndex → String → ℕ → HashIndex
delete_key idx key row_index = record idx { map = drop_row idx.map key row_index }

unfoldable pub key_count : HashIndex → ℕ
key_count idx = Buckets.key_count idx.map

unfoldable pub entry_count : HashIndex → ℕ
entry_count idx = Buckets.entry_count idx.map

-- the number of values fits the number of columns
unfoldable pub fits : {x : Externals} → HashIndex → List (Value x) → Bool
fits idx values = nat_beq (length values) (length idx.column_names)

expected : ℕ → ℕ → String
unfolding show_nat
expected wanted got =
    "Expected " ++ (show_nat wanted ++ (" values for composite index, got " ++ show_nat got))

module _ {x : Externals} where
  unfoldable pub insert : HashIndex → Value x → ℕ → DbResult HashIndex
  unfolding insert_key
  insert idx value row_index = insert_key idx (hash_key value) row_index

  unfoldable pub delete : HashIndex → Value x → ℕ → HashIndex
  unfolding delete_key
  delete idx value row_index = delete_key idx (hash_key value) row_index

  unfoldable pub search : HashIndex → Value x → List ℕ
  search idx value = rows_at idx.map (hash_key value)

  unfoldable pub insert_composite : HashIndex → List (Value x) → ℕ → DbResult HashIndex
  unfolding insert_key fits expected
  insert_composite idx values row_index =
      if not (fits idx values)
      then err (parse_error (expected (length idx.column_names) (length values)))
      else insert_key idx (hash_composite_key values) row_index

  unfoldable pub delete_composite : HashIndex → List (Value x) → ℕ → HashIndex
  unfolding delete_key fits
  delete_composite idx values row_index =
      if not (fits idx values) then idx else delete_key idx (hash_composite_key values) row_index

  unfoldable pub search_composite : HashIndex → List (Value x) → List ℕ
  unfolding fits
  search_composite idx values =
      if not (fits idx values) then [] else rows_at idx.map (hash_composite_key values)
