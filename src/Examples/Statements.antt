-- ===== src/Examples/Statements.antt =====
-- INSERT and VACUUM on a table of one integer column, for src/executor/.
use postgrust_sql.Prelude.{
  ℕ, ◌+◌, ◌%◌, ◌^◌, ◌≡◌, refl, none, some, List, [], ◌∷◌, string_eq, nat_eq, length, arith, All,
}
use Prim.Native.String.{◌++◌ as ◌+++◌}
use postgrust_sql.Prelude.Int.{pos, show_nat}
use postgrust_sql.Prelude.Map.{get, contains_key}
use postgrust_sql.Prelude.Set.{contains}
use postgrust_sql.Prelude.Result.{ok}
use postgrust_sql.Core.Value.{Value, integer}
use postgrust_sql.Core.Row.{Row, is_visible}
use postgrust_sql.Core.Table
use postgrust_sql.Core.Table.{Column, DataType, is_serial}
use postgrust_sql.Core.Database.{Database}
use postgrust_sql.Transaction.Global.{
  GlobalTransactionManager, get_oldest_active_tx, minimum, begin_transaction, current_tx_id,
}
use postgrust_sql.Transaction.Global.Invariant.{here, IsValid}
use postgrust_sql.Storage.Page.{Fault, failed}
use postgrust_sql.Storage.PageManager.{PageManager, PageFiles}
use postgrust_sql.Executor.Condition.{get_column_index}
use postgrust_sql.Executor.Compare.{value_eq}
use postgrust_sql.Storage.Page
use postgrust_sql.Storage.Bytes
use postgrust_sql.Storage.BufferPool
use postgrust_sql.Storage.PageManager
use postgrust_sql.Core.Row
use postgrust_sql.Storage.PagedTable
use postgrust_sql.Storage.PagedTable.{PagedTable}
use postgrust_sql.Storage.PagedTable.Insertion.{IsTable}
use postgrust_sql.Storage.PagedTable.Sweep.{alive}
use postgrust_sql.Storage.DatabaseStorage.{DatabaseStorage}
use postgrust_sql.Executor.Subquery.{success}
use postgrust_sql.Executor.Dml.{
  validate_and_coerce_types, coerce, reorder_values, handle_serial_columns, validate_unique_from,
  check_unique, any_equal,
}
use postgrust_sql.Executor.Dml.Coercion.{Fit, validate_and_coerce_types-Fit}
use postgrust_sql.Executor.Dml.Insert.{
  Session, Outcome, prepare_values, insert_with_storage, advance_sequences, after_prepare,
  validate_unique_constraints, after_unique, store_row, after_store, after_index, index_all,
  after_sequences,
}
use postgrust_sql.Executor.Dml.Insertion.{IsInserted}
use postgrust_sql.Executor.StorageAdapter.{paged_storage, paged_storage_laws, insert_into_pages}
use postgrust_sql.Executor.Vacuum.{vacuum}
use postgrust_sql.Executor.Vacuum.Visibility.{IsSettled, seen, vacuum_keeps_seen}
use postgrust_sql.Examples.Indexes.{externals}
use postgrust_sql.Examples.Conditions.{comparisons, column}
use postgrust_sql.Examples.Managers.{files}
use postgrust_sql.Examples.Tables.{
  codec, decodes, manager, table, table-IsTable, kept_row, dead_row,
}

-- texts of at most five bytes, of exactly three characters, and one of two words
abbrev text_columns : List Column
text_columns =
    column "name" (DataType.varchar 5)
    ∷ column "code" (DataType.char 3)
    ∷ column "mood" (DataType.enum "mood" ("sad" ∷ "happy" ∷ []))
    ∷ []

abbrev texts : List (Value externals)
texts = Value.text "seven" ∷ Value.text "x" ∷ Value.text "happy" ∷ []

abbrev coerced : List (Value externals)
coerced = Value.text "seven" ∷ Value.char "x  " ∷ Value.enum "mood" "happy" ∷ []

validate_and_coerce_types-Fit_example : Fit text_columns coerced
unfolding validate_and_coerce_types coerce
validate_and_coerce_types-Fit_example =
    validate_and_coerce_types-Fit text_columns texts coerced refl

-- transactions 4 and 5 have begun, the earlier ones have ended
abbrev pub transactions : GlobalTransactionManager
transactions = record { next_tx_id = 6; active_transactions = 5 ∷ 4 ∷ [] }

transactions-IsValid : IsValid transactions
unfolding contains
transactions-IsValid = record { started = omega arith; issued = λ tx h. ground arith }

abbrev database : Database (Value externals)
database = record {
  name = "main";
  tables =
      (
        "numbers",
        record {
          name = "numbers";
          columns = column "n" DataType.integer ∷ [];
          rows = [];
          sequences = [];
          owner = "postgres";
        },
      )
      ∷ [];
  enums = [];
  indexes = [];
  views = [];
  table_metadata = [];
}

abbrev storage : DatabaseStorage files
storage = record {
  page_manager = manager;
  paged_tables = ("numbers", (1, table)) ∷ [];
  next_table_id = 2;
}

settled : All (IsSettled transactions) (kept_row ∷ dead_row ∷ [])
unfolding minimum
settled = (
  λ xmax e. absurd (ground (arith, e)),
  (λ xmax e. (omega (arith, deleter xmax e), λ q. ground (arith, q, deleter xmax e)), tt),
)
  where
    deleter : (xmax : ℕ) → some 2 ≡ some xmax → 2 ≡ xmax
    deleter xmax e = cc (e)

vacuum_keeps_seen_example :
    (n : ℕ) × (swept : IsTable codec files
      (vacuum codec files database (some "numbers") transactions storage).1.page_manager
      table)
    × ((vacuum codec files database (some "numbers") transactions storage).0
        ≡ ok
            (success ("VACUUM complete. Removed " +++ (show_nat (n % 2 ^ 64) +++ " dead tuples."))))
    × (n + length swept.rows ≡ 2)
    × (swept.rows ≡ alive codec (get_oldest_active_tx transactions) (kept_row ∷ dead_row ∷ []))
    × (seen transactions swept.rows ≡ seen transactions (kept_row ∷ dead_row ∷ []))
unfolding get contains_key
vacuum_keeps_seen_example =
    vacuum_keeps_seen codec files database transactions transactions storage "numbers" 1 table
      table-IsTable refl refl transactions-IsValid settled here

abbrev paged_session : Session (PageManager files × PagedTable) (Value externals)
paged_session = record {
  storage = (manager, table);
  sequences = [];
  tx_manager = transactions;
  indexes = [];
  log = none;
}

abbrev number_columns : List Column
number_columns = column "n" DataType.integer ∷ []

abbrev paged_inserting : Outcome comparisons (paged_storage codec files) number_columns "numbers"
paged_inserting =
    insert_with_storage comparisons (paged_storage codec files) number_columns "numbers" [] none
      (integer (pos 9) ∷ []) (some 4) paged_session

paged_inserted : paged_inserting.0 ≡ ok (success "1 row inserted")
unfolding insert_with_storage prepare_values reorder_values handle_serial_columns
    validate_and_coerce_types coerce is_serial get_column_index Table.position after_prepare
    validate_unique_constraints validate_unique_from check_unique any_equal value_eq after_unique
    store_row after_store after_index index_all after_sequences advance_sequences is_visible
    begin_transaction current_tx_id PagedTable.insert PagedTable.get_all_rows PageManager.get_page
    BufferPool.get_page get Page.get_all_rows Page.rows_from Page.new Page.get_row Bytes.write
    Bytes.read PageManager.with_page_mut BufferPool.get_page_mut Row.new_with_xmin Page.can_fit
    Page.insert_row Page.store_row
paged_inserted = refl

insert_into_pages_example :
    IsInserted comparisons
      (paged_storage codec files)
      number_columns
      "numbers"
      (paged_storage_laws codec files)
      (prepare_values comparisons
        (paged_storage codec files)
        number_columns
        "numbers"
        []
        none
        (integer (pos 9) ∷ []))
      (some 4)
      paged_session
      paged_inserting.1
insert_into_pages_example =
    insert_into_pages codec files comparisons number_columns "numbers" [] none
      (integer (pos 9) ∷ []) (some 4) paged_session (success "1 row inserted") table-IsTable
      (omega arith) (λ ordered prepared. decodes _) paged_inserted
