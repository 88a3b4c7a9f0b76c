-- ===== src/Examples/Memory.antt =====
-- INSERT, DELETE and UPDATE on rows in memory, for src/executor/dml.rs.
use postgrust_sql.Prelude.{
  get_elem?, ◌<◌, String, ◌≡◌, ◌↔◌, refl, true, Option, none, some, List, [], ◌∷◌, ◌++◌, string_eq,
  nat_eq, if◌then◌else◌, ltb, Bool-cases, inl, inr, sym, append-nil, length, arith,
}
use postgrust_sql.Prelude.Int.{pos}
use postgrust_sql.Prelude.Map.{get}
use postgrust_sql.Prelude.Set.{contains}
use postgrust_sql.Prelude.Result.{Result, ok, err, is_err}
use postgrust_sql.Core.Error.{io}
use postgrust_sql.Core.Value.{Value, integer}
use postgrust_sql.Core.Row.{Row, is_visible}
use postgrust_sql.Core.Table
use postgrust_sql.Core.Table.{Column, DataType, is_serial}
use postgrust_sql.Transaction.Global.{begin_transaction, current_tx_id}
use postgrust_sql.Storage.Page.{Fault, failed}
use postgrust_sql.Executor.Condition.{get_column_index}
use postgrust_sql.Executor.Compare.{value_eq}
use postgrust_sql.Executor.Subquery.{success}
use postgrust_sql.Executor.Dml.{
  validate_and_coerce_types, coerce, reorder_values, handle_serial_columns, validate_unique_from,
  check_unique, any_equal,
}
use postgrust_sql.Executor.Dml.Storage.{RowStorage, RowStorageLaws}
use postgrust_sql.Executor.Dml.Insert.{
  Session, Outcome, prepare_values, insert_with_storage, advance_sequences, after_prepare,
  validate_unique_constraints, after_unique, store_row, after_store, after_index, index_all,
  after_sequences,
}
use postgrust_sql.Executor.Dml.Commit.{failed_insert_stays_active}
use postgrust_sql.Executor.Dml.Insertion.{IsInserted, insert_with_storage_effect}
use postgrust_sql.Examples.Indexes.{externals}
use postgrust_sql.Examples.Conditions.{comparisons, column}
use postgrust_sql.Examples.Tables.{kept_row, dead_row}
use postgrust_sql.Executor.Condition.{Condition, equals, column_value, evaluate_with_columns}
use postgrust_sql.Executor.Dml.Delete.{
  selected, delete_predicate, filter_holds, delete_with_storage,
}
use postgrust_sql.Executor.Dml.Delete.Selection.{Listed, selected_iff}
use postgrust_sql.Executor.Dml.Update.{column_updates, update_with_storage}
use postgrust_sql.Executor.Dml.Sequences.{Above}
use postgrust_sql.Executor.Dml.Advance.{insert_with_storage-Above}
use postgrust_sql.Executor.Dml.Endings.{failed_change_stays_active}
use postgrust_sql.Examples.Statements.{transactions}

-- rows in memory, at most two
abbrev memory_insert :
    List (Row (Value externals))
    → Row (Value externals)
    → Result Fault (Unit {0}) × List (Row (Value externals))
memory_insert rows row =
    if ltb (length rows) 2 then (ok tt, rows ++ row ∷ []) else (err (failed (io "full")), rows)

abbrev memory : RowStorage (Value externals) (List (Row (Value externals)))
memory = record {
  insert = memory_insert;
  get_all = λ rows. (ok rows, rows);
  update_where = λ rows predicate updater tx. (ok 0, rows);
  delete_where = λ rows predicate tx. (ok 0, rows);
  count = λ rows. length rows;
}

memory_inserted :
    (rows : List (Row (Value externals))) (row : Row (Value externals))
    → (memory_insert rows row).0 ≡ ok tt
    → (memory_insert rows row).1 ≡ rows ++ row ∷ []
memory_inserted rows row done = elim (Bool-cases (ltb (length rows) 2)) [
  | inl e ↦ rw (e) refl
  | inr e ↦ absurd (ground (arith, done, e))
]

abbrev memory_laws : RowStorageLaws (Value externals) (List (Row (Value externals))) memory
memory_laws = record {
  IsValid = λ rows. Unit {0};
  content = λ rows. rows;
  IsKept = λ row. Unit {0};
  HasRoom = λ rows. length rows < 2;
  get_all-content = λ rows v. refl;
  get_all-IsValid = λ rows v. v;
  get_all-HasRoom = λ rows v room. room;
  content-get_all = λ rows v. refl;
  insert-IsValid = λ rows row v room kept done. tt;
  content-insert = λ rows row v room kept done. record {
    front = rows;
    back = [];
    old = sym (append-nil rows);
    new = memory_inserted rows row done;
  };
}

-- a session on the rows, in which the next transaction is number 6
abbrev session :
    List (Row (Value externals)) → Session (List (Row (Value externals))) (Value externals)
session rows = record {
  storage = rows;
  sequences = ("id", pos 1) ∷ [];
  tx_manager = transactions;
  indexes = [];
  log = some [];
}

abbrev id_columns : List Column
id_columns = record (column "id" DataType.serial) { primary_key = true } ∷ []

abbrev inserting : List (Row (Value externals)) → Outcome comparisons memory id_columns "t"
inserting rows =
    insert_with_storage comparisons memory id_columns "t" (("id", pos 1) ∷ []) (some ("id" ∷ []))
      (integer (pos 1) ∷ []) none (session rows)

abbrev preparing : Result Fault (List (Value externals))
preparing =
    prepare_values comparisons memory id_columns "t" (("id", pos 1) ∷ []) (some ("id" ∷ []))
      (integer (pos 1) ∷ [])

prepared : preparing ≡ ok (integer (pos 1) ∷ [])
unfolding prepare_values reorder_values handle_serial_columns validate_and_coerce_types coerce
    is_serial get_column_index Table.position
prepared = refl

inserted : (inserting (kept_row ∷ [])).0 ≡ ok (success "1 row inserted")
unfolding insert_with_storage prepare_values reorder_values handle_serial_columns
    validate_and_coerce_types coerce is_serial get_column_index Table.position after_prepare
    validate_unique_constraints validate_unique_from check_unique any_equal value_eq after_unique
    store_row after_store after_index index_all after_sequences advance_sequences is_visible
    begin_transaction current_tx_id
inserted = refl

insert_with_storage_effect_example :
    IsInserted comparisons memory id_columns "t" memory_laws preparing none
      (session (kept_row ∷ []))
      (inserting (kept_row ∷ [])).1
insert_with_storage_effect_example =
    insert_with_storage_effect comparisons memory id_columns "t" memory_laws (("id", pos 1) ∷ [])
      (some ("id" ∷ [])) (integer (pos 1) ∷ []) none (session (kept_row ∷ []))
      (success "1 row inserted") tt (omega arith) (λ ordered prepared. tt) inserted

-- there is no room for a third row
failed_insert_stays_active_example :
    contains (inserting (kept_row ∷ kept_row ∷ [])).1.tx_manager.active_transactions 6
    ≡ is_err (inserting (kept_row ∷ kept_row ∷ [])).0
unfolding validate_unique_constraints validate_unique_from is_visible current_tx_id value_eq
failed_insert_stays_active_example =
    failed_insert_stays_active comparisons memory id_columns "t" (("id", pos 1) ∷ [])
      (some ("id" ∷ [])) (integer (pos 1) ∷ []) (session (kept_row ∷ kept_row ∷ []))
      (integer (pos 1) ∷ []) prepared refl

-- the rows with the value 7
abbrev sevens : Option (Condition externals String)
sevens = some (equals "id" (integer (pos 7)))

selected_iff_example : Listed 0 kept_row ((0, kept_row) ∷ []) ↔ (
    (get_elem? (kept_row ∷ dead_row ∷ []) 0 ≡ some kept_row)
    × (is_visible kept_row 6 ≡ true)
    × (filter_holds comparisons id_columns sevens kept_row ≡ ok true))
unfolding selected delete_predicate is_visible evaluate_with_columns column_value value_eq
    get_column_index Table.position
selected_iff_example =
    selected_iff comparisons id_columns sevens 6 (kept_row ∷ dead_row ∷ []) ((0, kept_row) ∷ []) 0
      kept_row refl

failed_change_stays_active_example :
    (contains
        (delete_with_storage comparisons memory id_columns "t" sevens none
          (session (kept_row ∷ []))).1.tx_manager.active_transactions
        6
      ≡ is_err
          (delete_with_storage comparisons memory id_columns "t" sevens none
            (session (kept_row ∷ []))).0)
    × (contains
          (update_with_storage comparisons memory id_columns "t"
            (("id", integer (pos 8)) ∷ [])
            sevens
            none
            (session (kept_row ∷ []))).1.tx_manager.active_transactions
          6
        ≡ is_err
            (update_with_storage comparisons memory id_columns "t"
              (("id", integer (pos 8)) ∷ [])
              sevens
              none
              (session (kept_row ∷ []))).0)
unfolding column_updates Table.position
failed_change_stays_active_example =
    failed_change_stays_active comparisons memory id_columns "t" sevens
      (("id", integer (pos 8)) ∷ []) ((0, integer (pos 8)) ∷ []) (session (kept_row ∷ [])) refl

insert_with_storage-Above_example :
    Above (pos 1) (get {K = String} (inserting (kept_row ∷ [])).1.sequences "id")
unfolding is_serial
insert_with_storage-Above_example =
    insert_with_storage-Above comparisons memory id_columns "t" (("id", pos 1) ∷ [])
      (some ("id" ∷ [])) (integer (pos 1) ∷ []) (integer (pos 1) ∷ []) none
      (session (kept_row ∷ [])) (success "1 row inserted") 0
      (record (column "id" DataType.serial) { primary_key = true }) (pos 1) prepared inserted refl
      refl refl (λ e. absurd (ground (arith, e)))
