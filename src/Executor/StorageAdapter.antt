-- ===== src/Executor/StorageAdapter.antt =====
-- src/executor/storage_adapter.rs: the paged storage behind the trait `RowStorage`, and that it keeps
-- the trait's promises.
use postgrust_sql.Prelude.{
  ℕ, ◌+◌, ◌^◌, ◌<◌, ◌≡◌, sym, ap, ◌∙◌, List, [], OneMore, subst, String, Option,
}
use postgrust_sql.Prelude.Result.{Result, ok, err}
use postgrust_sql.Core.Row.{Row, new_with_xmin}
use postgrust_sql.Storage.Page.{Decodes, Bincode, Fault}
use postgrust_sql.Storage.Page.Layout.{IsValid as IsLaid}
use postgrust_sql.Storage.PageManager.{PageManager, PageFiles}
use postgrust_sql.Storage.PagedTable
use postgrust_sql.Storage.PagedTable.{PagedTable, TableState, page_id, insert, get_all_rows}
use postgrust_sql.Storage.PagedTable.Access.{content_from, content_from-same, get_all_rows_effect}
use postgrust_sql.Storage.PagedTable.Insertion.{IsTable}
use postgrust_sql.Storage.PagedTable.Refusals.{insert_ok}
use postgrust_sql.Prelude.Int.{ℤ}
use postgrust_sql.Prelude.Map.{Map}
use postgrust_sql.Core.Value.{Externals, Value}
use postgrust_sql.Core.Table.{Column}
use postgrust_sql.Executor.Compare.{Comparisons}
use postgrust_sql.Executor.Subquery.{QueryResult}
use postgrust_sql.Executor.Dml.Insert.{Session, prepare_values, insert_with_storage}
use postgrust_sql.Executor.Dml.Insertion
use postgrust_sql.Executor.Dml.Insertion.{row_tx, insert_with_storage_effect}
use postgrust_sql.Executor.Dml.Storage.{RowStorage, RowStorageLaws}

module _ {V : Type 0} (codec : Bincode V) (files : PageFiles) where
  abbrev pub paged_storage : RowStorage V (PageManager files × PagedTable)
  paged_storage = record {
    insert = PagedTable.insert codec files;
    get_all = PagedTable.get_all_rows codec files;
    update_where = PagedTable.update_where codec files;
    delete_where = PagedTable.delete_where codec files;
    count = λ s. s.1.row_count;
  }

  abbrev or_empty : Result Fault (List (Row V)) → List (Row V)
  or_empty (ok rows) = rows
  or_empty (err e) = []

  -- the rows of the pages
  rows_of : PageManager files × PagedTable → List (Row V)
  rows_of s = or_empty (content_from codec files s.0 s.1.table_id 0 s.1.page_count)

  rows_of_table :
      (s : PageManager files × PagedTable) (t : IsTable codec files s.0 s.1) → rows_of s ≡ t.rows
  unfolding rows_of
  rows_of_table s t = ap or_empty t.read

  read_table :
      (m : PageManager files) (t : PagedTable)
      → IsTable codec files m t
      → IsTable codec files (get_all_rows codec files (m, t)).1.0 t
  read_table m t old =
      let (_, valid, _, same) = get_all_rows_effect codec files m t old.valid in
      record {
        valid = valid;
        laid = λ k below. subst IsLaid (sym (same (page_id t k))) (old.laid k below);
        rows = old.rows;
        read =
            content_from-same codec files m (get_all_rows codec files (m, t)).1.0 t.table_id 0
              t.page_count (λ k above below. same (page_id t k))
            ∙ old.read;
      }

  -- The paged storage keeps what the trait promises of reading and inserting, on a valid table with
  -- valid pages, as long as it has not all of its 2^32 pages.
  pub paged_storage_laws : RowStorageLaws V (PageManager files × PagedTable) paged_storage
  unfolding get_all_rows read_table rows_of
  paged_storage_laws = record {
    IsValid = λ s. IsTable codec files s.0 s.1;
    IsKept = Decodes codec;
    HasRoom = λ s. s.1.page_count + 1 < 2 ^ 32;
    content = rows_of;
    get_all-content = λ s t.
        (get_all_rows_effect codec files s.0 s.1 t.valid).0
        ∙ t.read
        ∙ ap ok (sym (rows_of_table s t));
    get_all-IsValid = λ s t. read_table s.0 s.1 t;
    get_all-HasRoom = λ s t room. room;
    content-get_all = λ s t.
        rows_of_table (get_all_rows codec files s).1 (read_table s.0 s.1 t)
        ∙ sym (rows_of_table s t);
    insert-IsValid =
        λ s row t room kept done. (insert_ok codec files s.1 row s.0 t room kept done).table;
    content-insert = λ s row t room kept done.
        let r = insert_ok codec files s.1 row s.0 t room kept done in
        let s' = (PagedTable.insert codec files s row).1 in
        subst (λ l. OneMore row l (rows_of s')) (sym (rows_of_table s t))
          (subst (λ l. OneMore row t.rows l) (sym (rows_of_table s' r.table)) r.one_more);
  }

-- An INSERT that succeeds on a table of pages, in a valid state that has room for another page, where
-- the encoding of the row of the prepared values decodes to it: its
-- values were prepared without an error, the table is valid and holds one row more, of these values
-- and the statement's transaction, and in a unique column no row that was visible had a value equal
-- to a value that is not NULL.
pub insert_into_pages :
    {x : Externals} (codec : Bincode (Value x)) (files : PageFiles) (cmp : Comparisons x)
    (columns : List Column) (table : String) (table_sequences : Map String ℤ)
    (names : Option (List String)) (values : List (Value x)) (active : Option ℕ)
    (s : Session (PageManager files × PagedTable) (Value x)) (r : QueryResult)
    → IsTable codec files s.storage.0 s.storage.1
    → s.storage.1.page_count + 1 < 2 ^ 32
    → ((ordered : List (Value x))
        → prepare_values cmp (paged_storage codec files) columns table table_sequences names values
          ≡ ok ordered
        → Decodes codec (new_with_xmin ordered (row_tx active s.tx_manager)))
    → (insert_with_storage cmp
        (paged_storage codec files)
        columns
        table
        table_sequences
        names
        values
        active
        s).0
      ≡ ok r
    → Insertion.IsInserted cmp
        (paged_storage codec files)
        columns
        table
        (paged_storage_laws codec files)
        (prepare_values cmp (paged_storage codec files) columns table table_sequences names values)
        active
        s
        (insert_with_storage cmp
          (paged_storage codec files)
          columns
          table
          table_sequences
          names
          values
          active
          s).1
unfolding paged_storage_laws
insert_into_pages codec files cmp columns table table_sequences names values active s r valid room
      decodes h =
    insert_with_storage_effect cmp (paged_storage codec files) columns table
      (paged_storage_laws codec files) table_sequences names values active s r valid room decodes h
