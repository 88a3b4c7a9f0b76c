-- ===== src/Examples/Managers.antt =====
-- A page manager with room for one page, for src/storage/page_manager.rs.
use postgrust_sql.Prelude.{
  ℕ, ◌≡◌, refl, some, [], ◌∷◌, arith, length, sym, ap, ◌∙◌, inl, inr, if◌then◌else◌,
}
use postgrust_sql.Prelude.Map
use postgrust_sql.Prelude.Map.{get, contains_key}
use postgrust_sql.Prelude.Set.{contains}
use postgrust_sql.Prelude.Result.{ok}
use postgrust_sql.Core.Error.{DbResult}
use postgrust_sql.Storage.Page
use postgrust_sql.Storage.Page.{Page, PageId, Bincode, new_header, page_id_eq, page_id_beq}
use postgrust_sql.Storage.BufferPool.{flush_all}
use postgrust_sql.Storage.PageManager
use postgrust_sql.Storage.PageManager.{
  PageManager, PageFiles, get_page, flush_page, with_page_mut, checkpoint, create_page,
  delete_table_pages,
}
use postgrust_sql.Storage.PageManager.View.{IsValid, view, get-insert_cases}
use postgrust_sql.Storage.PageManager.Reads.{get_page_effect}
use postgrust_sql.Storage.PageManager.Updates.{with_page_mut_effect}
use postgrust_sql.Storage.PageManager.Checkpoint.{checkpoint_effect}
use postgrust_sql.Storage.PageManager.Tables.{create_page_effect, dropped_table_stays_cached}
use postgrust_sql.Examples.Pages.{codec}

-- files that hold pages as they are
abbrev pub files : PageFiles
files = record {
  Bytes = Page;
  serialize_page = λ p. ok p;
  deserialize_page = λ bytes. ok bytes;
  page_encodes = λ p. (p, refl);
  page_round_trip = λ p bytes e. sym e;
}

abbrev pub page_id : ℕ → PageId
page_id n = record { table_id = 1; page_number = n }

-- a page of the table with the slots and bytes of no row, and a checksum to tell it from a new one
abbrev marked_page : ℕ → Page
marked_page n = record {
  header = record (new_header (page_id n)) { checksum = 7 };
  slots = [];
  bytes = [];
}

-- page 0 is in memory and dirty, and there is no file
abbrev pub manager_with : Page → PageManager files
manager_with page = record {
  disk = [];
  buffer_pool = record {
    pages = (page_id 0, page) ∷ [];
    dirty_pages = page_id 0 ∷ [];
    lru = record { queue = page_id 0 ∷ []; capacity = 1 };
    hits = 0;
    misses = 0;
  };
}

pub manager_with-IsValid :
    {V : Type 0} (codec : Bincode V) (p : Page)
    → p.header.page_id ≡ page_id 0
    → IsValid codec files (manager_with p)
unfolding contains contains_key get Map.insert Map.remove Page.new new_header
manager_with-IsValid codec p own = record {
  queued = λ id q. ground (arith, q);
  own_id = λ id page e. elim (get-insert_cases (page_id 0) id p page [] e) [
    | inl (here, q) ↦ ap (λ (p : Page). p.header.page_id) q ∙ own ∙ here
    | inr (other, old) ↦ absurd (ground (arith, old))
  ];
  clean = λ id page e d. elim (get-insert_cases (page_id 0) id p page [] e) [
    | inl (here, q) ↦ absurd (ground (arith, d, here))
    | inr (other, old) ↦ absurd (ground (arith, old))
  ];
  readable = λ id bytes e. ground (arith, e);
  stored_id = λ id. refl;
}

abbrev manager : PageManager files
manager = manager_with (marked_page 0)

manager-IsValid : IsValid codec files manager
unfolding new_header
manager-IsValid = manager_with-IsValid codec (marked_page 0) refl

-- page 1 is read: page 0 is written, and makes room
get_page_effect_example :
    ((get_page codec files manager (page_id 1)).0 ≡ ok (view codec files manager (page_id 1)))
    × IsValid codec files (get_page codec files manager (page_id 1)).1
    × ((j : PageId)
        → view codec files (get_page codec files manager (page_id 1)).1 j
          ≡ view codec files manager j)
    × (get (get_page codec files manager (page_id 1)).1.buffer_pool.pages (page_id 1)
        ≡ some (view codec files manager (page_id 1)))
get_page_effect_example = get_page_effect codec files manager manager-IsValid (page_id 1)

-- a closure that sets the checksum
abbrev mark : Page → DbResult ℕ × Page
mark page = (ok 0, record page { header = record page.header { checksum = 8 } })

with_page_mut_effect_example :
    ((with_page_mut codec files manager (page_id 0) mark).0 ≡ ok 0)
    × IsValid codec files (with_page_mut codec files manager (page_id 0) mark).1
    × ((j : PageId)
        → view codec files (with_page_mut codec files manager (page_id 0) mark).1 j ≡ (
            if page_id_beq (page_id 0) j
            then (mark (view codec files manager (page_id 0))).1
            else view codec files manager j))
unfolding get new_header
with_page_mut_effect_example =
    with_page_mut_effect codec files manager (page_id 0) mark manager-IsValid refl

checkpoint_effect_example :
    ((checkpoint codec files manager).0 ≡ ok (length (flush_all manager.buffer_pool)))
    × IsValid codec files (checkpoint codec files manager).1
    × ((j : PageId)
        → view codec files (checkpoint codec files manager).1 j ≡ view codec files manager j)
    × ((size : ℕ) (j : PageId)
        → view codec files
            (PageManager.new codec files (checkpoint codec files manager).1.disk size)
            j
          ≡ view codec files manager j)
checkpoint_effect_example = checkpoint_effect codec files manager manager-IsValid

create_page_effect_example :
    ((create_page codec files manager 1 1).0 ≡ ok (page_id 1))
    × IsValid codec files (create_page codec files manager 1 1).1
    × ((j : PageId)
        → view codec files (create_page codec files manager 1 1).1 j ≡ (
            if page_id_beq (page_id 1) j
            then Page.new codec (page_id 1)
            else view codec files manager j))
create_page_effect_example = create_page_effect codec files manager (page_id 1) manager-IsValid

dropped_table_stays_cached_example :
    view codec files (delete_table_pages codec files manager 1) (page_id 0) ≡ marked_page 0
unfolding get
dropped_table_stays_cached_example =
    dropped_table_stays_cached codec files manager (page_id 0) (marked_page 0) refl
