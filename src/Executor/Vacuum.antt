-- ===== src/Executor/Vacuum.antt =====
-- src/executor/vacuum.rs: the statement VACUUM.
pub mod Visibility
use Prim.Native.String.{◌++◌}
use postgrust_sql.Prelude.{
  ℕ, String, ◌+◌, ◌%◌, ◌^◌, Bool, not, Option, none, some, List, [], ◌∷◌, map, if◌then◌else◌,
  string_eq,
}
use postgrust_sql.Prelude.Int.{show_nat}
use postgrust_sql.Prelude.Map.{contains_key}
use postgrust_sql.Prelude.Result.{Result, ok, err, ◌>>=◌}
use postgrust_sql.Core.Error.{table_not_found}
use postgrust_sql.Core.Database.{Database}
use postgrust_sql.Transaction.Global.{GlobalTransactionManager, get_oldest_active_tx}
use postgrust_sql.Storage.Page.{Bincode, Fault, failed}
use postgrust_sql.Storage.PageManager.{PageFiles}
use postgrust_sql.Storage.PagedTable
use postgrust_sql.Storage.DatabaseStorage.{DatabaseStorage, with_table}
use postgrust_sql.Executor.Subquery.{QueryResult, success}

-- all tables of the database, or the one that is named
abbrev pub tables_to_vacuum : {V : Type 0} → Database V → Option String → Result Fault (List String)
tables_to_vacuum db none = ok (map (λ e. e.0) db.tables)
tables_to_vacuum db (some name) =
    if not (contains_key db.tables name)
    then err (failed (table_not_found name))
    else ok (name ∷ [])

module _ {V : Type 0} (codec : Bincode V) (files : PageFiles) where
  unfoldable pub vacuum_table :
      String → ℕ → DatabaseStorage files → Result Fault ℕ × DatabaseStorage files
  vacuum_table table_name oldest_tx s =
      with_table codec files s table_name (λ t. PagedTable.vacuum codec files t oldest_tx)

  abbrev pub add_removed :
      Result Fault ℕ × DatabaseStorage files
      → (DatabaseStorage files → Result Fault ℕ × DatabaseStorage files)
      → Result Fault ℕ × DatabaseStorage files
  add_removed (err e, s) rest = (err e, s)
  add_removed (ok removed, s) rest =
      let (more, s') = rest s in (more >>= λ n. ok ((removed + n) % 2 ^ 64), s')

  unfoldable pub vacuum_tables :
      List String → ℕ → DatabaseStorage files → Result Fault ℕ × DatabaseStorage files
  unfolding vacuum_table
  vacuum_tables [] oldest_tx s = (ok 0, s)
  vacuum_tables (table_name ∷ names) oldest_tx s =
      add_removed (vacuum_table table_name oldest_tx s) (vacuum_tables names oldest_tx)

  abbrev pub completed :
      Result Fault ℕ × DatabaseStorage files → Result Fault QueryResult × DatabaseStorage files
  completed (r, s) = (
    r >>= λ total_removed.
        ok (success ("VACUUM complete. Removed " ++ (show_nat total_removed ++ " dead tuples."))),
    s,
  )

  abbrev pub vacuum_named :
      ℕ
      → DatabaseStorage files
      → Result Fault (List String)
      → Result Fault QueryResult × DatabaseStorage files
  unfolding vacuum_tables
  vacuum_named oldest_tx s (err e) = (err e, s)
  vacuum_named oldest_tx s (ok names) = completed (vacuum_tables names oldest_tx s)

  unfoldable pub vacuum :
      Database V
      → Option String
      → GlobalTransactionManager
      → DatabaseStorage files
      → Result Fault QueryResult × DatabaseStorage files
  vacuum db table_name tx_manager s =
      vacuum_named (get_oldest_active_tx tx_manager) s (tables_to_vacuum db table_name)
