-- ===== src/Storage/PagedTable.antt =====
-- src/storage/paged_table.rs: a table on pages. The page manager that the tables of a database share
-- is passed along. After a panic the state is not looked at.
pub mod Access
pub mod Attempts
pub mod Content
pub mod Insertion
pub mod Refusals
pub mod Slots
pub mod Sweep
pub mod Vacuum
use postgrust_sql.Prelude.{
  ℕ, String, zero, suc, ◌+◌, ◌%◌, ◌^◌, Bool, true, false, Option, none, some, List, [], ◌∷◌, ◌++◌,
  length, map, if◌then◌else◌,
}
use mathlib.Core.List.{reverse}
use postgrust_sql.Prelude.Result.{Result, ok, err, ◌>>=◌}
use postgrust_sql.Core.Error.{DbResult}
use postgrust_sql.Core.Row
use postgrust_sql.Core.Row.{Row, mark_deleted, is_dead}
use postgrust_sql.Storage.Page
use postgrust_sql.Storage.Page.{
  Page, PageId, Bincode, Fault, failed, panicked, can_fit, insert_row, get_row, update_row,
  delete_row,
}
use postgrust_sql.Storage.PageManager.{
  PageManager, PageFiles, get_page, with_page_mut, create_page, checkpoint,
}
use postgrust_sql.Storage.TablePage.{
  caught, released, with_result, if_fits, try_insert, insert_only, add_marked, mark_row, mark_slots,
  mark_page, if_dead, dead_slots, delete_rows, vacuum_page,
}

pub record PagedTable : Type 0 where
  pub table_id : ℕ
  pub page_count : ℕ
  pub row_count : ℕ

pub record PagedTableStats : Type 0 where
  pub table_id : ℕ
  pub page_count : ℕ
  pub row_count : ℕ

unfoldable pub new : ℕ → PagedTable
new table_id = record { table_id = table_id; page_count = 0; row_count = 0 }

unfoldable pub stats : PagedTable → PagedTableStats
stats t = record { table_id = t.table_id; page_count = t.page_count; row_count = t.row_count }

abbrev pub page_at : ℕ → ℕ → PageId
page_at table_id n = record { table_id = table_id; page_number = n }

abbrev pub page_id : PagedTable → ℕ → PageId
page_id t n = page_at t.table_id n

module _ {V : Type 0} (codec : Bincode V) (files : PageFiles) where
  -- a closure through `get_page_mut` and `get_mut`
  unfoldable pub on_page :
      {R : Type 0}
      → (Page → Result Fault R × Page)
      → PageManager files
      → PageId
      → Result Fault R × PageManager files
  on_page f m id =
      let (r, m') = with_page_mut codec files m id (λ page. caught (f page)) in (released r, m')

  -- the loop over the pages goes on after `false`
  abbrev pub until_inserted :
      Result Fault Bool × PageManager files
      → (PageManager files → Result Fault Bool × PageManager files)
      → Result Fault Bool × PageManager files
  until_inserted (err e, m) rest = (err e, m)
  until_inserted (ok true, m) rest = (ok true, m)
  until_inserted (ok false, m) rest = rest m

  -- `left` pages from number `n` on
  unfoldable pub try_pages :
      PagedTable → Row V → ℕ → ℕ → PageManager files → Result Fault Bool × PageManager files
  unfolding on_page try_insert
  try_pages t row n zero m = (ok false, m)
  try_pages t row n (suc left) m =
      until_inserted (on_page (try_insert codec row) m (page_id t n)) (try_pages t row (suc n) left)

  abbrev pub TableState : Type 0
  TableState = PageManager files × PagedTable

  unfoldable pub after_fresh :
      PagedTable → Result Fault ℕ × PageManager files → Result Fault (Unit {0}) × TableState
  after_fresh t (err e, m) = (err e, (m, t))
  after_fresh t (ok _, m) = (
    ok tt,
    (
      m,
      record t { page_count = (t.page_count + 1) % 2 ^ 32; row_count = (t.row_count + 1) % 2 ^ 64 },
    ),
  )

  unfoldable pub after_create :
      PagedTable
      → Row V
      → DbResult PageId × PageManager files
      → Result Fault (Unit {0}) × TableState
  unfolding after_fresh on_page insert_only
  after_create t row (err e, m) = (err (failed e), (m, t))
  after_create t row (ok new_page_id, m) =
      after_fresh t (on_page (insert_only codec row) m new_page_id)

  unfoldable pub after_pages :
      PagedTable
      → Row V
      → Result Fault Bool × PageManager files
      → Result Fault (Unit {0}) × TableState
  unfolding after_create
  after_pages t row (err e, m) = (err e, (m, t))
  after_pages t row (ok true, m) = (ok tt, (m, record t { row_count = (t.row_count + 1) % 2 ^ 64 }))
  after_pages t row (ok false, m) =
      after_create t row (create_page codec files m t.table_id t.page_count)

  unfoldable pub insert : TableState → Row V → Result Fault (Unit {0}) × TableState
  unfolding after_pages try_pages
  insert (m, t) row = after_pages t row (try_pages t row 0 t.page_count m)

  -- the rows of one page before those of the others
  abbrev pub before :
      Result Fault (List (Row V))
      → Result Fault (List (Row V)) × PageManager files
      → Result Fault (List (Row V)) × PageManager files
  before first (more, m) = (first >>= λ rows. more >>= λ rest. ok (rows ++ rest), m)

  abbrev pub after_get :
      DbResult Page × PageManager files
      → (PageManager files → Result Fault (List (Row V)) × PageManager files)
      → Result Fault (List (Row V)) × PageManager files
  after_get (err e, m) rest = (err (failed e), m)
  after_get (ok page, m) rest = before (Page.get_all_rows codec page) (rest m)

  unfoldable pub rows_of_pages :
      PagedTable → ℕ → ℕ → PageManager files → Result Fault (List (Row V)) × PageManager files
  rows_of_pages t n zero m = (ok [], m)
  rows_of_pages t n (suc left) m =
      after_get (get_page codec files m (page_id t n)) (rows_of_pages t (suc n) left)

  unfoldable pub get_all_rows : TableState → Result Fault (List (Row V)) × TableState
  unfolding rows_of_pages
  get_all_rows (m, t) = let (rows, m') = rows_of_pages t 0 t.page_count m in (rows, (m', t))

  -- one closure on each page, with the results put together
  abbrev pub then_pages :
      {R : Type 0}
      → (R → R → R)
      → Result Fault R × PageManager files
      → (PageManager files → Result Fault R × PageManager files)
      → Result Fault R × PageManager files
  then_pages join (err e, m) rest = (err e, m)
  then_pages join (ok r, m) rest = let (more, m') = rest m in (more >>= λ q. ok (join r q), m')

  unfoldable pub each_page :
      {R : Type 0}
      → R
      → (R → R → R)
      → (Page → Result Fault R × Page)
      → PagedTable
      → ℕ
      → ℕ
      → PageManager files
      → Result Fault R × PageManager files
  unfolding on_page
  each_page start join f t n zero m = (ok start, m)
  each_page start join f t n (suc left) m =
      then_pages join (on_page f m (page_id t n)) (each_page start join f t (suc n) left)

  unfoldable pub mark_where :
      (Row V → Result Fault Bool) → ℕ → TableState → Result Fault (List (Row V)) × TableState
  unfolding each_page mark_page
  mark_where predicate tx_id (m, t) =
      let (r, m') = each_page [] ◌++◌ (mark_page codec predicate tx_id) t 0 t.page_count m in
      (r, (m', t))

  unfoldable pub delete_where :
      TableState → (Row V → Result Fault Bool) → ℕ → Result Fault ℕ × TableState
  unfolding mark_where
  delete_where s predicate tx_id =
      let (marked, s') = mark_where predicate tx_id s in (marked >>= λ rows. ok (length rows), s')

  -- the rows are inserted until one fails
  abbrev pub unless_failed :
      Result Fault (Unit {0}) × TableState
      → (TableState → Result Fault (Unit {0}) × TableState)
      → Result Fault (Unit {0}) × TableState
  unless_failed (err e, s) rest = (err e, s)
  unless_failed (ok _, s) rest = rest s

  unfoldable pub insert_rows : List (Row V) → TableState → Result Fault (Unit {0}) × TableState
  unfolding insert
  insert_rows [] s = (ok tt, s)
  insert_rows (row ∷ rows) s = unless_failed (insert s row) (insert_rows rows)

  -- the new versions of the rows that were marked
  abbrev pub new_versions :
      (Row V → Result Fault (Row V)) → ℕ → List (Row V) → Result Fault (List (Row V))
  new_versions updater tx_id [] = ok []
  new_versions updater tx_id (row ∷ rows) = do
    new_row ← updater row
    rest ← new_versions updater tx_id rows
    ok (record new_row { xmin = tx_id; xmax = none } ∷ rest)

  abbrev pub counted : ℕ → Result Fault (Unit {0}) × TableState → Result Fault ℕ × TableState
  counted n (r, s) = (r >>= λ _. ok n, s)

  unfoldable pub after_marks :
      Result Fault (List (Row V)) × TableState → Result Fault ℕ × TableState
  unfolding insert_rows
  after_marks (err e, s) = (err e, s)
  after_marks (ok new_rows, s) = counted (length new_rows) (insert_rows new_rows s)

  unfoldable pub update_where :
      TableState
      → (Row V → Result Fault Bool)
      → (Row V → Result Fault (Row V))
      → ℕ
      → Result Fault ℕ × TableState
  unfolding mark_where after_marks
  update_where s predicate updater tx_id =
      let (marked, s') = mark_where predicate tx_id s in
      after_marks (marked >>= new_versions updater tx_id, s')

  unfoldable pub flush : TableState → DbResult (Unit {0}) × TableState
  flush (m, t) = let (r, m') = checkpoint codec files m in (r >>= λ _. ok tt, (m', t))

  unfoldable pub vacuum : TableState → ℕ → Result Fault ℕ × TableState
  unfolding each_page vacuum_page
  vacuum (m, t) oldest_tx =
      let (r, m') = each_page 0 ◌+◌ (vacuum_page codec oldest_tx) t 0 t.page_count m in (r, (m', t))
