-- ===== src/Executor/Dml/Insert.antt =====
-- `insert_with_storage` of src/executor/dml.rs.
use postgrust_sql.Prelude.{
  ℕ, ◌%◌, String, zero, suc, ◌+◌, ◌-◌, ◌^◌, ◌++◌, Bool, true, false, Option, none, some, List, [],
  ◌∷◌, length, get_elem?, nat_beq, if◌then◌else◌, ◌==◌, string_eq,
}
use postgrust_sql.Prelude.Int.{ℤ, pos, negsuc}
use postgrust_sql.Prelude.Map
use postgrust_sql.Prelude.Map.{Map, get}
use postgrust_sql.Prelude.Result.{Result, ok, err, ◌>>=◌}
use postgrust_sql.Core.Value.{Externals, Value, integer}
use postgrust_sql.Core.Row.{Row, new_with_xmin}
use postgrust_sql.Core.Table
use postgrust_sql.Core.Table.{Column, is_serial}
use postgrust_sql.Transaction.Global.{
  GlobalTransactionManager, begin_transaction, commit_transaction, current_tx_id,
}
use postgrust_sql.Index
use postgrust_sql.Index.{Index, table_name, column_name, column_names, is_composite}
use postgrust_sql.Storage.Page.{Fault, panicked}
use postgrust_sql.Executor.Compare.{Comparisons, int_gt}
use postgrust_sql.Executor.Subquery.{QueryResult, success}
use postgrust_sql.Executor.Condition.{lift, indexed}
use postgrust_sql.Executor.Dml.{
  reorder_values, handle_serial_columns, validate_and_coerce_types, validate_unique_from, or_one,
}
use postgrust_sql.Executor.Dml.Storage.{RowStorage}

-- what the statement changes; `log` is the write-ahead log, where there is one
pub record Session (St : Type 0) (V : Type 0) : Type 0 where
  pub storage : St
  pub sequences : Map String ℤ
  pub tx_manager : GlobalTransactionManager
  pub indexes : Map String Index
  pub log : Option (List (Row V))

-- `log_insert`, where there is a log
abbrev pub logged : {V : Type 0} → Row V → Option (List (Row V)) → Option (List (Row V))
logged row none = none
logged row (some rows) = some (rows ++ row ∷ [])

-- the addition of one, and `max`, on `i64`
abbrev pub int_suc : ℤ → ℤ
int_suc (pos n) = if nat_beq n (2 ^ 63 - 1) then negsuc (2 ^ 63 - 1) else pos (n + 1)
int_suc (negsuc zero) = pos 0
int_suc (negsuc (suc n)) = negsuc n

abbrev pub int_max : ℤ → ℤ → ℤ
int_max a b = if int_gt a b then a else b

abbrev pub keep_going :
    String
    → Map String Index
    → Result Fault Index
    → Index
    → Result Fault (Unit {0}) × Map String Index
    → Result Fault (Unit {0}) × Map String Index
keep_going name rest (err e) index _ = (err e, (name, index) ∷ rest)
keep_going name rest (ok index') index (r, rest') = (r, (name, index') ∷ rest')

module _ {x : Externals} where
  abbrev pub advance : Map String ℤ → Column → Value x → Map String ℤ
  advance sequences col (integer n) =
      if is_serial col.data_type
      then Map.insert sequences col.name (int_max (or_one (get sequences col.name)) (int_suc n))
      else sequences
  advance sequences col v = sequences

  -- the walk over the columns, in which only 64-bit numbers count
  unfoldable pub advance_sequences :
      List Column → List (Value x) → Map String ℤ → Result Fault (Map String ℤ)
  advance_sequences [] values sequences = ok sequences
  advance_sequences (col ∷ cols) [] sequences =
      if is_serial col.data_type then err panicked else advance_sequences cols [] sequences
  advance_sequences (col ∷ cols) (v ∷ values) sequences =
      advance_sequences cols values (advance sequences col v)

  -- the value of the column of this name, where there is one
  abbrev pub named_value : List Column → List (Value x) → String → Result Fault (List (Value x))
  named_value columns values name = elim (Table.position name columns) [
    | none ↦ ok []
    | some idx ↦ indexed (get_elem? values idx) >>= λ v. ok (v ∷ [])
  ]

  unfoldable pub named_values :
      List Column → List (Value x) → List String → Result Fault (List (Value x))
  named_values columns values [] = ok []
  named_values columns values (name ∷ names) = do
    first ← named_value columns values name
    rest ← named_values columns values names
    ok (first ++ rest)

  -- the entry of one row in one index: unless all columns of a composite index exist there is none
  unfoldable pub index_row : List Column → List (Value x) → ℕ → Index → Result Fault Index
  unfolding named_values
  index_row columns values row_index index =
      if is_composite index
      then (do
        key ← named_values columns values (column_names index)
        if nat_beq (length key) (length (column_names index))
            then lift (Index.insert_composite index key row_index)
            else ok index)
      else (do
        name ← indexed (column_name index)
        key ← named_value columns values name
        elim key [ [] ↦ ok index | v ∷ _ ↦ lift (Index.insert index v row_index) ])

  -- the entries in all indexes of the table; the first error ends the walk
  unfoldable pub index_all :
      String
      → List Column
      → List (Value x)
      → ℕ
      → Map String Index
      → Result Fault (Unit {0}) × Map String Index
  unfolding index_row
  index_all table columns values row_index [] = (ok tt, [])
  index_all table columns values row_index ((name, index) ∷ rest) =
      keep_going name rest
        (if table_name index == table then index_row columns values row_index index else ok index)
        index (index_all table columns values row_index rest)

  module _ {St : Type 0} (cmp : Comparisons x) (ops : RowStorage (Value x) St)
      (columns : List Column) (table : String) where
    abbrev pub Outcome : Type 0
    Outcome = Result Fault QueryResult × Session St (Value x)

    unfoldable pub prepare_values :
        Map String ℤ → Option (List String) → List (Value x) → Result Fault (List (Value x))
    prepare_values table_sequences names values = do
      ordered ← lift (reorder_values columns names values)
      filled ← handle_serial_columns columns table_sequences ordered
      validate_and_coerce_types columns filled

    unfoldable pub validate_unique_constraints :
        List (Value x) → Session St (Value x) → Result Fault (Unit {0}) × Session St (Value x)
    validate_unique_constraints values s =
        let (all_rows, storage) = ops.get_all s.storage in
        (
          all_rows >>= λ rows.
              validate_unique_from cmp rows (current_tx_id s.tx_manager) 0 columns values,
          record s { storage = storage },
        )

    abbrev pub commit_if : Bool → ℕ → GlobalTransactionManager → GlobalTransactionManager
    commit_if true tx_id g = commit_transaction g tx_id
    commit_if false tx_id g = g

    unfoldable pub after_sequences :
        ℕ → Bool → Session St (Value x) → Result Fault (Map String ℤ) → Outcome
    after_sequences tx_id auto_commit s (err e) = (err e, s)
    after_sequences tx_id auto_commit s (ok sequences) = (
      ok (success "1 row inserted"),
      record s { sequences = sequences; tx_manager = commit_if auto_commit tx_id s.tx_manager },
    )

    unfoldable pub after_index :
        List (Value x)
        → ℕ
        → Bool
        → Session St (Value x)
        → Result Fault (Unit {0}) × Map String Index
        → Outcome
    unfolding after_sequences
    after_index values tx_id auto_commit s (err e, indexes) =
        (err e, record s { indexes = indexes })
    after_index values tx_id auto_commit s (ok _, indexes) =
        after_sequences tx_id auto_commit (record s { indexes = indexes })
          (advance_sequences columns values s.sequences)

    -- the indexes get the number of the last row
    unfoldable pub after_store :
        List (Value x) → ℕ → Bool → Session St (Value x) → Result Fault (Unit {0}) × St → Outcome
    unfolding after_index index_all
    after_store values tx_id auto_commit s (err e, storage) =
        (err e, record s { storage = storage })
    after_store values tx_id auto_commit s (ok _, storage) =
        after_index values tx_id auto_commit (record s { storage = storage })
          (index_all table columns values ((ops.count storage + 2 ^ 64 - 1) % 2 ^ 64) s.indexes)

    unfoldable pub store_row : List (Value x) → ℕ → Bool → Session St (Value x) → Outcome
    unfolding after_store
    store_row values tx_id auto_commit s =
        let row = new_with_xmin values tx_id in
        after_store values tx_id auto_commit (record s { log = logged row s.log })
          (ops.insert s.storage row)

    unfoldable pub after_unique :
        List (Value x) → Option ℕ → Result Fault (Unit {0}) × Session St (Value x) → Outcome
    unfolding store_row
    after_unique values active (err e, s) = (err e, s)
    after_unique values (some tx_id) (ok _, s) = store_row values tx_id false s
    after_unique values none (ok _, s) =
        let ((tx_id, _), g) = begin_transaction s.tx_manager in
        store_row values tx_id true (record s { tx_manager = g })

    unfoldable pub after_prepare :
        Option ℕ → Session St (Value x) → Result Fault (List (Value x)) → Outcome
    unfolding after_unique validate_unique_constraints
    after_prepare active s (err e) = (err e, s)
    after_prepare active s (ok ordered) =
        after_unique ordered active (validate_unique_constraints ordered s)

    unfoldable pub insert_with_storage :
        Map String ℤ
        → Option (List String)
        → List (Value x)
        → Option ℕ
        → Session St (Value x)
        → Outcome
    unfolding prepare_values after_prepare
    insert_with_storage table_sequences names values active s =
        after_prepare active s (prepare_values table_sequences names values)
