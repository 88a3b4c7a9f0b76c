-- ===== src/Executor/Dml/Update.antt =====
-- `update_with_storage` of src/executor/dml.rs. The logging of an UPDATE is a comment in the source.
use Prim.Native.String.{◌++◌ as ◌+++◌}
use postgrust_sql.Prelude.{
  ℕ, String, ◌+◌, ◌-◌, ◌%◌, ◌^◌, Bool, false, ◌&&◌, ◌||◌, not, Option, List, [], ◌∷◌, length,
  get_elem?, set, nat_beq, ltb, if◌then◌else◌, ◌==◌, string_eq,
}
use postgrust_sql.Prelude.Int.{show_nat}
use postgrust_sql.Prelude.Map.{Map}
use postgrust_sql.Prelude.Result.{Result, ok, err, ◌>>=◌}
use postgrust_sql.Core.Error.{DbResult}
use postgrust_sql.Core.Value.{Externals, Value}
use postgrust_sql.Core.Row.{Row, new_with_xmin}
use postgrust_sql.Core.Table
use postgrust_sql.Core.Table.{Column}
use postgrust_sql.Index
use postgrust_sql.Index.{Index, table_name, column_name, column_names, is_composite}
use postgrust_sql.Storage.Page.{Fault, failed, panicked}
use postgrust_sql.Executor.Compare.{Comparisons, value_eq}
use postgrust_sql.Executor.Subquery.{success}
use postgrust_sql.Executor.Condition.{Condition, index_or, indexed}
use postgrust_sql.Executor.Dml.Storage.{RowStorage}
use postgrust_sql.Executor.Dml.Insert.{Session, named_value, named_values}
use postgrust_sql.Executor.Dml.Delete.{Outcome, statement_tx, end_statement, filter_holds, selected}

-- the numbers of the columns, with the new values
unfoldable pub column_updates :
    {V : Type 0} → List Column → List (String × V) → DbResult (List (ℕ × V))
column_updates columns [] = ok []
column_updates columns ((name, value) ∷ assignments) = do
  idx ← index_or (Table.position name columns) name
  rest ← column_updates columns assignments
  ok ((idx, value) ∷ rest)

-- `new_values[*idx] = new_value.clone()`, in turn
unfoldable pub assign : {V : Type 0} → List (ℕ × V) → List V → Result Fault (List V)
assign [] values = ok values
assign ((idx, value) ∷ updates) values =
    let rest = assign updates (set values idx value) in
    if ltb idx (length values) then rest else err panicked

unfoldable pub updater : {V : Type 0} → List (ℕ × V) → ℕ → Row V → Result Fault (Row V)
unfolding assign
updater updates tx row = do values ← assign updates row.values; ok (new_with_xmin values tx)

-- the rest of a walk over indexes
abbrev pub keep_index :
    String
    → Map String Index
    → Result Fault (Unit {0}) × Index
    → Result Fault (Unit {0}) × Map String Index
    → Result Fault (Unit {0}) × Map String Index
keep_index name rest (err e, index) _ = (err e, (name, index) ∷ rest)
keep_index name rest (ok _, index) (r, rest') = (r, (name, index) ∷ rest')

-- the rest of a walk over rows
abbrev pub then_rows :
    Result Fault (Unit {0}) × Map String Index
    → (Map String Index → Result Fault (Unit {0}) × Map String Index)
    → Result Fault (Unit {0}) × Map String Index
then_rows (err e, indexes) rest = (err e, indexes)
then_rows (ok _, indexes) rest = rest indexes

-- the index after the old entry has left, or with the new one
abbrev pub reindexed : Index → DbResult Index → Result Fault (Unit {0}) × Index
reindexed deleted (err e) = (err (failed e), deleted)
reindexed deleted (ok index) = (ok tt, index)

module _ {x : Externals} (cmp : Comparisons x) (columns : List Column) (table : String) where
  abbrev pub differ : List (Value x) → List (Value x) → Bool
  differ (a ∷ old_values) (b ∷ new_values) = not (value_eq cmp a b) || differ old_values new_values
  differ _ _ = false

  abbrev pub move_composite :
      ℕ
      → ℕ
      → Index
      → Result Fault (List (Value x) × List (Value x))
      → Result Fault (Unit {0}) × Index
  move_composite old_idx new_idx index (err e) = (err e, index)
  move_composite old_idx new_idx index (ok (old_values, new_values)) =
      let deleted = Index.delete_composite index old_values old_idx in
      if differ old_values new_values && nat_beq (length old_values) (length (column_names index))
      then reindexed deleted (Index.insert_composite deleted new_values new_idx)
      else (ok tt, index)

  abbrev pub move_single :
      ℕ
      → ℕ
      → Index
      → Result Fault (List (Value x) × List (Value x))
      → Result Fault (Unit {0}) × Index
  move_single old_idx new_idx index (ok (old_value ∷ _, new_value ∷ _)) =
      let deleted = Index.delete index old_value old_idx in
      if not (value_eq cmp old_value new_value)
      then reindexed deleted (Index.insert deleted new_value new_idx)
      else (ok tt, index)
  move_single old_idx new_idx index (ok _) = (ok tt, index)
  move_single old_idx new_idx index (err e) = (err e, index)

  -- the entry of one row in one index
  unfoldable pub move_row :
      ℕ → ℕ → Row (Value x) → Row (Value x) → Index → Result Fault (Unit {0}) × Index
  unfolding named_values
  move_row old_idx new_idx old_row new_row index =
      if is_composite index
      then move_composite old_idx new_idx index (do
        old_values ← named_values columns old_row.values (column_names index)
        new_values ← named_values columns new_row.values (column_names index)
        ok (old_values, new_values))
      else move_single old_idx new_idx index (do
        name ← indexed (column_name index)
        old_value ← named_value columns old_row.values name
        new_value ← named_value columns new_row.values name
        ok (old_value, new_value))

  unfoldable pub move_all :
      ℕ
      → ℕ
      → Row (Value x)
      → Row (Value x)
      → Map String Index
      → Result Fault (Unit {0}) × Map String Index
  unfolding move_row
  move_all old_idx new_idx old_row new_row [] = (ok tt, [])
  move_all old_idx new_idx old_row new_row ((name, index) ∷ rest) =
      keep_index name rest
        (if table_name index == table
          then move_row old_idx new_idx old_row new_row index
          else (ok tt, index))
        (move_all old_idx new_idx old_row new_row rest)

  abbrev pub move_found :
      ℕ
      → ℕ
      → Row (Value x)
      → Result Fault (Row (Value x))
      → Map String Index
      → Result Fault (Unit {0}) × Map String Index
  unfolding move_all
  move_found old_idx new_idx old_row (err e) indexes = (err e, indexes)
  move_found old_idx new_idx old_row (ok new_row) indexes =
      move_all old_idx new_idx old_row new_row indexes

  -- the rows that were chosen before; `new_idx` is the number of the next new version
  unfoldable pub move_rows :
      List (Row (Value x))
      → ℕ
      → List (ℕ × Row (Value x))
      → Map String Index
      → Result Fault (Unit {0}) × Map String Index
  unfolding move_found
  move_rows rows_after new_idx [] indexes = (ok tt, indexes)
  move_rows rows_after new_idx ((old_idx, old_row) ∷ rows) indexes =
      then_rows
        (move_found old_idx new_idx old_row (indexed (get_elem? rows_after new_idx)) indexes)
        (move_rows rows_after ((new_idx + 1) % 2 ^ 64) rows)

module _ {x : Externals} {St : Type 0} (cmp : Comparisons x) (ops : RowStorage (Value x) St)
    (columns : List Column) (table : String) where
  unfoldable pub after_move :
      ℕ
      → ℕ × Bool
      → Session St (Value x)
      → Result Fault (Unit {0}) × Map String Index
      → Outcome x St
  after_move updated_count tx s (err e, indexes) = (err e, record s { indexes = indexes })
  after_move updated_count tx s (ok _, indexes) = (
    ok (success (show_nat updated_count +++ " row(s) updated")),
    record s { indexes = indexes; tx_manager = end_statement tx s.tx_manager },
  )

  unfoldable pub after_reread :
      List (ℕ × Row (Value x))
      → ℕ
      → ℕ × Bool
      → Session St (Value x)
      → Result Fault (List (Row (Value x))) × St
      → Outcome x St
  unfolding after_move move_rows
  after_reread rows updated_count tx s (err e, storage) = (err e, record s { storage = storage })
  after_reread rows updated_count tx s (ok rows_after, storage) =
      after_move updated_count tx (record s { storage = storage })
        (move_rows cmp columns table rows_after
          ((length rows_after + 2 ^ 64 - updated_count) % 2 ^ 64) rows s.indexes)

  unfoldable pub after_update_where :
      List (ℕ × Row (Value x))
      → ℕ × Bool
      → Session St (Value x)
      → Result Fault ℕ × St
      → Outcome x St
  unfolding after_reread
  after_update_where rows tx s (err e, storage) = (err e, record s { storage = storage })
  after_update_where rows tx s (ok updated_count, storage) =
      if nat_beq updated_count 0
      then after_move updated_count tx (record s { storage = storage }) (ok tt, s.indexes)
      else after_reread rows updated_count tx s (ops.get_all storage)

module _ {x : Externals} {S St : Type 0} (cmp : Comparisons x) (ops : RowStorage (Value x) St)
    (columns : List Column) (table : String) where
  -- the closure that chooses the rows to update does not ask whether they are visible
  unfoldable pub after_choice :
      List (ℕ × Value x)
      → Option (Condition x S)
      → ℕ × Bool
      → Session St (Value x)
      → Result Fault (List (ℕ × Row (Value x)))
      → Outcome x St
  unfolding after_update_where updater
  after_choice updates filter tx s (err e) = (err e, s)
  after_choice updates filter tx s (ok rows) =
      after_update_where cmp ops columns table rows tx s
        (ops.update_where s.storage (filter_holds cmp columns filter) (updater updates tx.0) tx.0)

  unfoldable pub update_rows :
      List (ℕ × Value x) → Option (Condition x S) → ℕ × Bool → Session St (Value x) → Outcome x St
  unfolding after_choice
  update_rows updates filter tx s =
      let (all_rows, storage) = ops.get_all s.storage in
      after_choice updates filter tx (record s { storage = storage })
        (all_rows >>= λ rows. selected cmp columns filter tx.0 0 rows)

  abbrev pub after_columns :
      Option (Condition x S)
      → Option ℕ
      → Session St (Value x)
      → DbResult (List (ℕ × Value x))
      → Outcome x St
  unfolding update_rows
  after_columns filter active s (err e) = (err (failed e), s)
  after_columns filter active s (ok updates) =
      let (tx, g) = statement_tx active s.tx_manager in
      update_rows updates filter tx (record s { tx_manager = g })

  unfoldable pub update_with_storage :
      List (String × Value x)
      → Option (Condition x S)
      → Option ℕ
      → Session St (Value x)
      → Outcome x St
  unfolding after_columns
  update_with_storage assignments filter active s =
      after_columns filter active s (column_updates columns assignments)
