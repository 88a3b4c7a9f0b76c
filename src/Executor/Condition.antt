-- ===== src/Executor/Condition.antt =====
-- src/parser/statement.rs and src/executor/conditions.rs: the conditions of WHERE and their
-- evaluation on a row. Statements are not looked into.
pub mod Laws
use Prim.Native.String.{String, ◌++◌}
use postgrust_sql.Prelude.{
  ℕ, Bool, true, false, ◌&&◌, ◌||◌, not, Option, none, some, List, any, get_elem?, ◌==◌, string_eq,
}
use postgrust_sql.Prelude.Result.{Result, ok, err, ◌>>=◌}
use postgrust_sql.Core.Error.{DbResult, type_mismatch, parse_error}
use postgrust_sql.Core.Value
use postgrust_sql.Core.Value.{Externals, Value, null}
use postgrust_sql.Core.Row.{Row}
use postgrust_sql.Core.Table
use postgrust_sql.Core.Table.{Column, Table}
use postgrust_sql.Storage.Page.{Fault, failed, panicked}
use postgrust_sql.Executor.Like.{like_pattern_match}
use postgrust_sql.Executor.Compare.{Comparisons, value_eq, compare_greater_than, compare_less_than}
use postgrust_sql.Executor.Subquery.{Queries, execute_in, execute_exists, execute_scalar}

pub data Condition (x : Externals) (S : Type 0) : Type 0 where
  equals not_equals greater_than less_than greater_than_or_equal less_than_or_equal :
      String → Value x → Condition x S
  between : String → Value x → Value x → Condition x S
  like : String → String → Condition x S
  in_list : String → List (Value x) → Condition x S
  is_null is_not_null : String → Condition x S
  and or : Condition x S → Condition x S → Condition x S
  in_subquery not_in_subquery : String → S → Condition x S
  exists not_exists : S → Condition x S
  equals_subquery greater_than_subquery less_than_subquery : String → S → Condition x S

-- an error, which is no panic
abbrev pub lift {ℓ} : {A : Type ℓ} → DbResult A → Result Fault A
lift (ok a) = ok a
lift (err e) = err (failed e)

abbrev pub index_or : Option ℕ → String → DbResult ℕ
index_or none name = err (parse_error ("Unknown column: " ++ name))
index_or (some i) name = ok i

unfoldable pub get_column_index : List Column → String → DbResult ℕ
get_column_index columns name = index_or (Table.position name columns) name

-- `row.values[idx]`
abbrev pub indexed : {A : Type 0} → Option A → Result Fault A
indexed none = err panicked
indexed (some a) = ok a

not_implemented : String → Result Fault Bool
not_implemented what = err (failed (parse_error (what ++ " subquery not yet implemented")))

module _ {x : Externals} where
  -- the index of the column and the value there, with which most branches begin
  unfoldable pub column_value : List Column → Row (Value x) → String → Result Fault (Value x)
  unfolding get_column_index
  column_value columns row name = do
    idx ← lift (get_column_index columns name)
    indexed (get_elem? row.values idx)

  abbrev pub is_null_value : Value x → Bool
  is_null_value null = true
  is_null_value _ = false

  unfoldable pub match_like : Value x → String → DbResult Bool
  match_like (Value.text s) pattern = ok (like_pattern_match s pattern)
  match_like null pattern = ok false
  match_like _ pattern = err type_mismatch

  module _ {S : Type 0} (cmp : Comparisons x) (columns : List Column) (row : Row (Value x)) where
    unfoldable pub evaluate_with_columns : Condition x S → Result Fault Bool
    unfolding column_value not_implemented match_like
    evaluate_with_columns (equals col val) = do
      v ← column_value columns row col
      ok (value_eq cmp v val)
    evaluate_with_columns (not_equals col val) = do
      v ← column_value columns row col
      ok (not (value_eq cmp v val))
    evaluate_with_columns (greater_than col val) = do
      v ← column_value columns row col
      lift (compare_greater_than cmp v val)
    evaluate_with_columns (less_than col val) = do
      v ← column_value columns row col
      lift (compare_less_than cmp v val)
    evaluate_with_columns (greater_than_or_equal col val) = do
      v ← column_value columns row col
      gt ← lift (compare_greater_than cmp v val)
      ok (gt || value_eq cmp v val)
    evaluate_with_columns (less_than_or_equal col val) = do
      v ← column_value columns row col
      lt ← lift (compare_less_than cmp v val)
      ok (lt || value_eq cmp v val)
    evaluate_with_columns (between col low high) = do
      v ← column_value columns row col
      gt ← lift (compare_greater_than cmp v low)
      lt ← lift (compare_less_than cmp v high)
      ok ((gt || value_eq cmp v low) && (lt || value_eq cmp v high))
    evaluate_with_columns (like col pattern) = do
      v ← column_value columns row col
      lift (match_like v pattern)
    evaluate_with_columns (in_list col values) = do
      v ← column_value columns row col
      ok (any (value_eq cmp v) values)
    evaluate_with_columns (is_null col) = do v ← column_value columns row col; ok (is_null_value v)
    evaluate_with_columns (is_not_null col) = do
      v ← column_value columns row col
      ok (not (is_null_value v))
    evaluate_with_columns (and left right) = do
      l ← evaluate_with_columns left
      r ← evaluate_with_columns right
      ok (l && r)
    evaluate_with_columns (or left right) = do
      l ← evaluate_with_columns left
      r ← evaluate_with_columns right
      ok (l || r)
    evaluate_with_columns (in_subquery _ _) = not_implemented "IN"
    evaluate_with_columns (not_in_subquery _ _) = not_implemented "NOT IN"
    evaluate_with_columns (exists _) = not_implemented "EXISTS"
    evaluate_with_columns (not_exists _) = not_implemented "NOT EXISTS"
    evaluate_with_columns (equals_subquery _ _) = not_implemented "Scalar"
    evaluate_with_columns (greater_than_subquery _ _) = not_implemented "Scalar"
    evaluate_with_columns (less_than_subquery _ _) = not_implemented "Scalar"

    module _ (queries : Queries S) where
      -- whether the text of the value is among the texts of the subquery's values
      unfoldable pub in_subquery_values : String → S → Result Fault Bool
      unfolding column_value
      in_subquery_values col stmt = do
        v ← column_value columns row col
        values ← execute_in queries {x = x} stmt
        ok (any (λ w. Value.to_string w == Value.to_string v) values)

      unfoldable pub evaluate_with_context : Condition x S → Result Fault Bool
      unfolding in_subquery_values evaluate_with_columns
      evaluate_with_context (in_subquery col stmt) = in_subquery_values col stmt
      evaluate_with_context (not_in_subquery col stmt) = do
        found ← in_subquery_values col stmt
        ok (not found)
      evaluate_with_context (exists stmt) = execute_exists queries stmt
      evaluate_with_context (not_exists stmt) = do
        found ← execute_exists queries stmt
        ok (not found)
      evaluate_with_context (equals_subquery col stmt) = do
        v ← column_value columns row col
        w ← execute_scalar queries stmt
        ok (value_eq cmp v w)
      evaluate_with_context (greater_than_subquery col stmt) = do
        v ← column_value columns row col
        w ← execute_scalar queries stmt
        lift (compare_greater_than cmp v w)
      evaluate_with_context (less_than_subquery col stmt) = do
        v ← column_value columns row col
        w ← execute_scalar queries stmt
        lift (compare_less_than cmp v w)
      evaluate_with_context (and left right) = do
        l ← evaluate_with_context left
        r ← evaluate_with_context right
        ok (l && r)
      evaluate_with_context (or left right) = do
        l ← evaluate_with_context left
        r ← evaluate_with_context right
        ok (l || r)
      evaluate_with_context c = evaluate_with_columns c

  unfoldable pub evaluate :
      {S : Type 0}
      → Comparisons x
      → Table (Value x)
      → Row (Value x)
      → Condition x S
      → Result Fault Bool
  evaluate cmp table row condition = evaluate_with_columns cmp table.columns row condition
