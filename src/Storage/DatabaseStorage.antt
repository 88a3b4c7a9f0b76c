-- ===== src/Storage/DatabaseStorage.antt =====
-- src/storage/database_storage.rs: the tables of a database over one page manager.
use postgrust_sql.Prelude.{
  ℕ, String, ◌+◌, ◌%◌, ◌^◌, Bool, Option, none, some, List, [], map, if◌then◌else◌, string_eq,
}
use postgrust_sql.Prelude.Map
use postgrust_sql.Prelude.Map.{Map, get, contains_key}
use postgrust_sql.Prelude.Result.{Result, ok, err}
use postgrust_sql.Core.Error.{DbResult, table_already_exists, table_not_found}
use postgrust_sql.Core.Row.{Row}
use postgrust_sql.Storage.Page.{Bincode, Fault, failed}
use postgrust_sql.Storage.PageManager
use postgrust_sql.Storage.PageManager.{PageManager, PageFiles, delete_table_pages}
use postgrust_sql.Storage.PagedTable
use postgrust_sql.Storage.PagedTable.{PagedTable, PagedTableStats}

pub record DatabaseStorage (files : PageFiles) : Type 0 where
  pub page_manager : PageManager files
  pub paged_tables : Map String (ℕ × PagedTable)
  pub next_table_id : ℕ

module _ (files : PageFiles) where
  unfoldable pub new : PageManager files → DatabaseStorage files
  new page_manager = record { page_manager = page_manager; paged_tables = []; next_table_id = 1 }

  unfoldable pub create_table : DatabaseStorage files → String → DbResult (DatabaseStorage files)
  create_table s table_name =
      if contains_key s.paged_tables table_name
      then err (table_already_exists table_name)
      else ok (record s {
        next_table_id = (s.next_table_id + 1) % 2 ^ 32;
        paged_tables =
            Map.insert s.paged_tables table_name (s.next_table_id, PagedTable.new s.next_table_id);
      })

  unfoldable pub get_paged_table : DatabaseStorage files → String → Option PagedTable
  get_paged_table s table_name = elim (get s.paged_tables table_name) [
    | none ↦ none
    | some (_, table) ↦ some table
  ]

module _ {V : Type 0} (codec : Bincode V) (files : PageFiles) where
  unfoldable pub drop_table : DatabaseStorage files → String → DbResult (DatabaseStorage files)
  drop_table s table_name = elim (get s.paged_tables table_name) [
    | none ↦ err (table_not_found table_name)
    | some (table_id, _) ↦ ok (record s {
      paged_tables = Map.remove s.paged_tables table_name;
      page_manager = delete_table_pages codec files s.page_manager table_id;
    })
  ]

  -- what a method of the table leaves, put back under the table's name
  abbrev pub put_back :
      {R : Type 0}
      → DatabaseStorage files
      → String
      → ℕ
      → Result Fault R × (PageManager files × PagedTable)
      → Result Fault R × DatabaseStorage files
  put_back s table_name table_id (r, (m, table)) = (
    r,
    record s {
      page_manager = m;
      paged_tables = Map.insert s.paged_tables table_name (table_id, table);
    },
  )

  abbrev pub on_found :
      {R : Type 0}
      → DatabaseStorage files
      → String
      → (PageManager files × PagedTable → Result Fault R × (PageManager files × PagedTable))
      → Option (ℕ × PagedTable)
      → Result Fault R × DatabaseStorage files
  on_found s table_name method none = (err (failed (table_not_found table_name)), s)
  on_found s table_name method (some (table_id, table)) =
      put_back s table_name table_id (method (s.page_manager, table))

  -- a method of the table that is called through `get_paged_table_mut`
  unfoldable pub with_table :
      {R : Type 0}
      → DatabaseStorage files
      → String
      → (PageManager files × PagedTable → Result Fault R × (PageManager files × PagedTable))
      → Result Fault R × DatabaseStorage files
  with_table s table_name method = on_found s table_name method (get s.paged_tables table_name)

  unfoldable pub insert :
      DatabaseStorage files → String → Row V → Result Fault (Unit {0}) × DatabaseStorage files
  unfolding with_table
  insert s table_name row = with_table s table_name (λ t. PagedTable.insert codec files t row)

  unfoldable pub get_all_rows :
      DatabaseStorage files → String → Result Fault (List (Row V)) × DatabaseStorage files
  unfolding with_table
  get_all_rows s table_name = with_table s table_name (PagedTable.get_all_rows codec files)

  unfoldable pub delete_where :
      DatabaseStorage files
      → String
      → (Row V → Result Fault Bool)
      → ℕ
      → Result Fault ℕ × DatabaseStorage files
  unfolding with_table
  delete_where s table_name predicate tx_id =
      with_table s table_name (λ t. PagedTable.delete_where codec files t predicate tx_id)

  unfoldable pub update_where :
      DatabaseStorage files
      → String
      → (Row V → Result Fault Bool)
      → (Row V → Result Fault (Row V))
      → ℕ
      → Result Fault ℕ × DatabaseStorage files
  unfolding with_table
  update_where s table_name predicate updater tx_id =
      with_table s table_name (λ t. PagedTable.update_where codec files t predicate updater tx_id)

  unfoldable pub checkpoint : DatabaseStorage files → DbResult ℕ × DatabaseStorage files
  checkpoint s =
      let (r, m) = PageManager.checkpoint codec files s.page_manager in
      (r, record s { page_manager = m })

module _ (files : PageFiles) where
  unfoldable pub get_table_stats : DatabaseStorage files → String → Option PagedTableStats
  unfolding get_paged_table
  get_table_stats s table_name = elim (get_paged_table files s table_name) [
    | none ↦ none
    | some table ↦ some (PagedTable.stats table)
  ]

  unfoldable pub list_tables : DatabaseStorage files → List String
  list_tables s = map (λ e. e.0) s.paged_tables

  unfoldable pub row_count : DatabaseStorage files → String → Option ℕ
  unfolding get_paged_table
  row_count s table_name = elim (get_paged_table files s table_name) [
    | none ↦ none
    | some table ↦ some table.row_count
  ]
