-- ===== src/Executor/Dml/Delete.antt =====
-- `delete_with_storage` of src/executor/dml.rs. The logging of a DELETE is a comment in the source.
pub mod Selection
use Prim.Native.String.{◌++◌ as ◌+++◌}
use postgrust_sql.Prelude.{
  ℕ, String, suc, Bool, true, false, Option, none, some, List, [], ◌∷◌, length, nat_beq,
  if◌then◌else◌, ◌==◌, string_eq,
}
use postgrust_sql.Prelude.Int.{show_nat}
use postgrust_sql.Prelude.Map.{Map}
use postgrust_sql.Prelude.Result.{Result, ok, err, ◌>>=◌}
use postgrust_sql.Core.Value.{Externals, Value}
use postgrust_sql.Core.Row.{Row, is_visible}
use postgrust_sql.Core.Table.{Column}
use postgrust_sql.Transaction.Global.{
  GlobalTransactionManager, begin_transaction, commit_transaction,
}
use postgrust_sql.Index
use postgrust_sql.Index.{Index, table_name, column_name, column_names, is_composite}
use postgrust_sql.Storage.Page.{Fault, failed, panicked}
use postgrust_sql.Executor.Compare.{Comparisons}
use postgrust_sql.Executor.Subquery.{QueryResult, success}
use postgrust_sql.Executor.Condition.{Condition, indexed, evaluate_with_columns}
use postgrust_sql.Executor.Dml.Storage.{RowStorage}
use postgrust_sql.Executor.Dml.Insert.{Session, named_value, named_values}

-- `unwrap_or(false)`, which lets a panic through
abbrev pub or_false : Result Fault Bool → Result Fault Bool
or_false (ok b) = ok b
or_false (err (failed e)) = ok false
or_false (err panicked) = err panicked

-- the transaction of the statement, and whether the statement began it
abbrev pub statement_tx :
    Option ℕ → GlobalTransactionManager → (ℕ × Bool) × GlobalTransactionManager
statement_tx (some tx_id) g = ((tx_id, false), g)
statement_tx none g = ((g.next_tx_id, true), (begin_transaction g).1)

abbrev pub end_statement : ℕ × Bool → GlobalTransactionManager → GlobalTransactionManager
end_statement (tx_id, true) g = commit_transaction g tx_id
end_statement (tx_id, false) g = g

module _ {x : Externals} {S : Type 0} (cmp : Comparisons x) (columns : List Column) where
  -- whether the row meets the filter; an error of the condition counts as no
  abbrev pub filter_holds : Option (Condition x S) → Row (Value x) → Result Fault Bool
  filter_holds none row = ok true
  filter_holds (some c) row = or_false (evaluate_with_columns cmp columns row c)

  unfoldable pub delete_predicate : Option (Condition x S) → ℕ → Row (Value x) → Result Fault Bool
  delete_predicate filter tx row = if is_visible row tx then filter_holds filter row else ok false

  -- the rows to delete with their numbers, from number `i` on
  unfoldable pub selected :
      Option (Condition x S)
      → ℕ
      → ℕ
      → List (Row (Value x))
      → Result Fault (List (ℕ × Row (Value x)))
  unfolding delete_predicate
  selected filter tx i [] = ok []
  selected filter tx i (row ∷ rows) = do
    hit ← delete_predicate filter tx row
    rest ← selected filter tx (suc i) rows
    ok (if hit then (i, row) ∷ rest else rest)

module _ {x : Externals} (columns : List Column) (table : String) where
  -- the entry of one row leaves one index
  unfoldable pub unindex_row : ℕ → Row (Value x) → Index → Result Fault Index
  unfolding named_values
  unindex_row row_idx row index =
      if is_composite index
      then (do
        key ← named_values columns row.values (column_names index)
        ok (
            if nat_beq (length key) (length (column_names index))
            then Index.delete_composite index key row_idx
            else index))
      else (do
        name ← indexed (column_name index)
        key ← named_value columns row.values name
        ok (elim key [ [] ↦ index | v ∷ _ ↦ Index.delete index v row_idx ]))

  unfoldable pub unindex_all :
      ℕ → Row (Value x) → Map String Index → Result Fault (Map String Index)
  unfolding unindex_row
  unindex_all row_idx row [] = ok []
  unindex_all row_idx row ((name, index) ∷ rest) = do
    index' ← if table_name index == table then unindex_row row_idx row index else ok index
    rest' ← unindex_all row_idx row rest
    ok ((name, index') ∷ rest')

  unfoldable pub unindex_rows :
      List (ℕ × Row (Value x)) → Map String Index → Result Fault (Map String Index)
  unfolding unindex_all
  unindex_rows [] indexes = ok indexes
  unindex_rows ((row_idx, row) ∷ rows) indexes = do
    indexes' ← unindex_all row_idx row indexes
    unindex_rows rows indexes'

abbrev pub Outcome : Externals → Type 0 → Type 0
Outcome x St = Result Fault QueryResult × Session St (Value x)

module _ {x : Externals} {St : Type 0} where
  -- nothing after a panic reads the indexes
  unfoldable pub after_unindex :
      ℕ → ℕ × Bool → Session St (Value x) → Result Fault (Map String Index) → Outcome x St
  after_unindex deleted_count tx s (err e) = (err e, s)
  after_unindex deleted_count tx s (ok indexes) = (
    ok (success (show_nat deleted_count +++ " row(s) deleted")),
    record s { indexes = indexes; tx_manager = end_statement tx s.tx_manager },
  )

  unfoldable pub after_delete_where :
      List Column
      → String
      → List (ℕ × Row (Value x))
      → ℕ × Bool
      → Session St (Value x)
      → Result Fault ℕ × St
      → Outcome x St
  unfolding after_unindex unindex_rows
  after_delete_where columns table rows tx s (err e, storage) =
      (err e, record s { storage = storage })
  after_delete_where columns table rows tx s (ok deleted_count, storage) =
      after_unindex deleted_count tx (record s { storage = storage })
        (unindex_rows columns table rows s.indexes)

module _ {x : Externals} {S St : Type 0} (cmp : Comparisons x) (ops : RowStorage (Value x) St)
    (columns : List Column) (table : String) where
  unfoldable pub after_selection :
      Option (Condition x S)
      → ℕ × Bool
      → Session St (Value x)
      → Result Fault (List (ℕ × Row (Value x)))
      → Outcome x St
  unfolding after_delete_where delete_predicate
  after_selection filter tx s (err e) = (err e, s)
  after_selection filter tx s (ok rows) =
      after_delete_where columns table rows tx s
        (ops.delete_where s.storage (delete_predicate cmp columns filter tx.0) tx.0)

  unfoldable pub delete_rows :
      Option (Condition x S) → ℕ × Bool → Session St (Value x) → Outcome x St
  unfolding after_selection selected
  delete_rows filter tx s =
      let (all_rows, storage) = ops.get_all s.storage in
      after_selection filter tx (record s { storage = storage })
        (all_rows >>= λ rows. selected cmp columns filter tx.0 0 rows)

  unfoldable pub delete_with_storage :
      Option (Condition x S) → Option ℕ → Session St (Value x) → Outcome x St
  unfolding delete_rows
  delete_with_storage filter active s =
      let (tx, g) = statement_tx active s.tx_manager in
      delete_rows filter tx (record s { tx_manager = g })
