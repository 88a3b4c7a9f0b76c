-- ===== src/Storage/PageManager.antt =====
-- src/storage/page_manager.rs: pages between the buffer pool and their files. The file system is a
-- map from page identifiers to the contents of files, and does not fail.
pub mod View
pub mod Moves
pub mod Stores
pub mod Insertion
pub mod Eviction
pub mod Reads
pub mod Checkpoint
pub mod Flush
pub mod Updates
pub mod Tables
use postgrust_sql.Prelude.{
  ℕ, zero, suc, ◌+◌, String, ◌≡◌, refl, Bool, true, false, Option, none, some, List, [], ◌∷◌,
  length, retain, not, nat_beq, if◌then◌else◌,
}
use postgrust_sql.Prelude.Map
use postgrust_sql.Prelude.Map.{Map, get}
use postgrust_sql.Prelude.Set.{contains}
use postgrust_sql.Prelude.Result.{Result, ok, err, ◌>>=◌}
use postgrust_sql.Core.Error.{DatabaseError, DbResult, binary_serialization, io}
use postgrust_sql.Storage.Page
use postgrust_sql.Storage.Page.{Page, PageId, Bincode, page_id_eq}
use postgrust_sql.Storage.BufferPool
use postgrust_sql.Storage.BufferPool.{BufferPool}

-- `bincode` on pages: every page can be encoded, and is decoded from its encoding.
pub record PageFiles : Type 1 where
  pub Bytes : Type 0
  pub serialize_page : Page → Result String Bytes
  pub deserialize_page : Bytes → Result String Page
  pub page_encodes : (p : Page) → (bytes : Bytes) × (serialize_page p ≡ ok bytes)
  pub page_round_trip :
      (p : Page) (bytes : Bytes) → serialize_page p ≡ ok bytes → deserialize_page bytes ≡ ok p

abbrev pub as_error {ℓ} : {A : Type ℓ} → Result String A → DbResult A
as_error (ok a) = ok a
as_error (err e) = err (binary_serialization e)

pub record PageManager (files : PageFiles) : Type 0 where
  pub disk : Map PageId files.Bytes
  pub buffer_pool : BufferPool

module _ {V : Type 0} (codec : Bincode V) (files : PageFiles) where
  open files use {Bytes, serialize_page, deserialize_page}

  unfoldable pub new : Map PageId Bytes → ℕ → PageManager files
  new disk buffer_pool_size = record { disk = disk; buffer_pool = BufferPool.new buffer_pool_size }

  unfoldable pub read_page_from_disk : PageManager files → PageId → DbResult Page
  read_page_from_disk m page_id = elim (get m.disk page_id) [
    | none ↦ ok (Page.new codec page_id)
    | some bytes ↦ as_error (deserialize_page bytes)
  ]

  -- a failure to encode leaves the files as they are
  unfoldable pub write_page_to_disk :
      PageManager files → Page → DbResult (Unit {0}) × PageManager files
  write_page_to_disk m page = elim (as_error (serialize_page page)) [
    | ok bytes ↦ (ok tt, record m { disk = Map.insert m.disk page.header.page_id bytes })
    | err e ↦ (err e, m)
  ]

  -- the dirty page that was chosen for eviction is taken out and written
  unfoldable pub write_back : PageManager files → PageId → DbResult (Unit {0}) × PageManager files
  unfolding write_page_to_disk
  write_back m evicted_page_id =
      let (removed, pool) = BufferPool.remove_page m.buffer_pool evicted_page_id in
      elim removed [
        | none ↦ (ok tt, record m { buffer_pool = pool })
        | some page ↦ write_page_to_disk (record m { buffer_pool = pool }) page
      ]

  -- what `get_page` does with the page that was chosen for eviction: it is written if it is dirty
  unfoldable pub after_insert :
      PageManager files → Option PageId × BufferPool → DbResult (Unit {0}) × PageManager files
  unfolding write_back
  after_insert m (none, pool) = (ok tt, record m { buffer_pool = pool })
  after_insert m (some evicted_page_id, pool) =
      let m' : PageManager files = record m { buffer_pool = pool } in
      if contains (BufferPool.get_dirty_pages pool) evicted_page_id
      then write_back m' evicted_page_id
      else (ok tt, m')

  -- `get_page` after a miss
  unfoldable pub cache_page : PageManager files → Page → DbResult (Unit {0}) × PageManager files
  unfolding after_insert
  cache_page m page = after_insert m (BufferPool.insert_page m.buffer_pool page)

  -- `get_page` after the file was read
  unfoldable pub after_read : PageManager files → DbResult Page → DbResult Page × PageManager files
  unfolding cache_page
  after_read m (err e) = (err e, m)
  after_read m (ok page) = let (written, m') = cache_page m page in (written >>= λ _. ok page, m')

  -- `get_page` after the pool was asked
  unfoldable pub after_lookup :
      PageManager files → PageId → Option Page × BufferPool → DbResult Page × PageManager files
  unfolding after_read read_page_from_disk
  after_lookup m page_id (some page, pool) = (ok page, record m { buffer_pool = pool })
  after_lookup m page_id (none, pool) =
      let m' : PageManager files = record m { buffer_pool = pool } in
      after_read m' (read_page_from_disk m' page_id)

  unfoldable pub get_page : PageManager files → PageId → DbResult Page × PageManager files
  unfolding after_lookup
  get_page m page_id = after_lookup m page_id (BufferPool.get_page m.buffer_pool page_id)

  -- the closure on the page that the pool gave
  unfoldable pub apply_closure :
      {R : Type 0}
      → PageManager files
      → PageId
      → (Page → DbResult R × Page)
      → Option Page × BufferPool
      → DbResult R × PageManager files
  apply_closure m page_id f (none, pool) =
      (err (io "Page not found in buffer pool"), record m { buffer_pool = pool })
  apply_closure m page_id f (some page, pool) =
      let (result, page') = f page in
      (result, record m { buffer_pool = BufferPool.store_page pool page_id page' })

  -- `get_mut` of a guard: `f` is the closure on `&mut Page`, of which the second result is the page
  -- that it leaves
  unfoldable pub get_mut :
      {R : Type 0}
      → PageManager files
      → PageId
      → (Page → DbResult R × Page)
      → DbResult R × PageManager files
  unfolding apply_closure
  get_mut m page_id f = apply_closure m page_id f (BufferPool.get_page_mut m.buffer_pool page_id)

  -- the use of the guard that `get_page_mut` returns
  unfoldable pub use_guard :
      {R : Type 0}
      → PageId
      → (Page → DbResult R × Page)
      → DbResult Page × PageManager files
      → DbResult R × PageManager files
  unfolding get_mut
  use_guard page_id f (err e, m) = (err e, m)
  use_guard page_id f (ok _, m) = get_mut m page_id f

  -- `get_page_mut`, then `get_mut` on the guard
  unfoldable pub with_page_mut :
      {R : Type 0}
      → PageManager files
      → PageId
      → (Page → DbResult R × Page)
      → DbResult R × PageManager files
  unfolding get_page use_guard
  with_page_mut m page_id f = use_guard page_id f (get_page m page_id)

  -- `flush_page` after the pool was asked
  unfoldable pub flush_found :
      PageManager files
      → PageId
      → Option Page × BufferPool
      → DbResult (Unit {0}) × PageManager files
  unfolding write_page_to_disk
  flush_found m page_id (none, pool) = (ok tt, record m { buffer_pool = pool })
  flush_found m page_id (some page, pool) =
      write_page_to_disk (record m { buffer_pool = BufferPool.clear_dirty pool page_id }) page

  unfoldable pub flush_page : PageManager files → PageId → DbResult (Unit {0}) × PageManager files
  unfolding flush_found
  flush_page m page_id = flush_found m page_id (BufferPool.get_page m.buffer_pool page_id)

  -- `?` in a loop: the rest is done unless there was an error
  unfoldable pub unless_failed :
      DbResult (Unit {0}) × PageManager files
      → (PageManager files → DbResult (Unit {0}) × PageManager files)
      → DbResult (Unit {0}) × PageManager files
  unless_failed (ok _, m) rest = rest m
  unless_failed (err e, m) rest = (err e, m)

  -- the loop of `checkpoint`
  unfoldable pub write_all :
      PageManager files → List (PageId × Page) → DbResult (Unit {0}) × PageManager files
  unfolding write_page_to_disk unless_failed
  write_all m [] = (ok tt, m)
  write_all m ((id, page) ∷ dirty_pages) =
      unless_failed (write_page_to_disk m page) (λ m'. write_all m' dirty_pages)

  unfoldable pub checkpoint : PageManager files → DbResult ℕ × PageManager files
  unfolding write_all
  checkpoint m =
      let dirty_pages = BufferPool.flush_all m.buffer_pool in
      let (written, m') =
        write_all (record m { buffer_pool = BufferPool.clear_all_dirty m.buffer_pool })
          dirty_pages in
      (written >>= λ _. ok (length dirty_pages), m')

  -- a new page that was written goes into the pool; the page that was chosen for eviction is not
  -- looked at
  unfoldable pub add_created :
      Page → DbResult (Unit {0}) × PageManager files → DbResult PageId × PageManager files
  add_created page (err e, m) = (err e, m)
  add_created page (ok _, m) = (
    ok page.header.page_id,
    record m { buffer_pool = (BufferPool.insert_page m.buffer_pool page).1 },
  )

  unfoldable pub create_page : PageManager files → ℕ → ℕ → DbResult PageId × PageManager files
  unfolding write_page_to_disk add_created
  create_page m table_id page_number =
      let page = Page.new codec (record { table_id = table_id; page_number = page_number }) in
      add_created page (write_page_to_disk m page)

  -- the files of the table's directory
  unfoldable pub files_of : Map PageId Bytes → ℕ → Map PageId Bytes
  files_of disk table_id = retain (λ e. nat_beq e.0.table_id table_id) disk

  unfoldable pub get_page_count : PageManager files → ℕ → ℕ
  unfolding files_of
  get_page_count m table_id = length (files_of m.disk table_id)

  -- `for page_number in 0..n`, from `i` on
  unfoldable pub remove_pages : BufferPool → ℕ → ℕ → ℕ → BufferPool
  remove_pages b table_id i zero = b
  remove_pages b table_id i (suc n) =
      remove_pages (BufferPool.remove_page b (record { table_id = table_id; page_number = i })).1
        table_id (i + 1) n

  -- the pages are counted after the directory is gone
  unfoldable pub delete_table_pages : PageManager files → ℕ → PageManager files
  unfolding get_page_count remove_pages
  delete_table_pages m table_id =
      let m' : PageManager files = record m {
        disk = retain (λ e. not (nat_beq e.0.table_id table_id)) m.disk;
      } in
      record m' {
        buffer_pool = remove_pages m'.buffer_pool table_id 0 (get_page_count m' table_id);
      }
