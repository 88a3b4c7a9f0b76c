-- ===== src/Storage/BufferPool.antt =====
-- src/storage/buffer_pool.rs: the pages in memory, with the order of their last use.
use postgrust_sql.Prelude.{
  ℕ, ◌+◌, ◌%◌, ◌^◌, Bool, not, ◌&&◌, Option, none, some, List, [], ◌∷◌, ◌++◌, length, leb,
  if◌then◌else◌,
}
use postgrust_sql.Prelude.Map
use postgrust_sql.Prelude.Map.{Map, get, contains_key}
use postgrust_sql.Prelude.Set
use postgrust_sql.Prelude.Set.{contains}
use postgrust_sql.Storage.Page.{Page, PageId, page_id_eq}

-- most recently used at the back
pub record LruCache : Type 0 where
  pub queue : List PageId
  pub capacity : ℕ

unfoldable pub touch : LruCache → PageId → LruCache
touch lru page_id = record lru { queue = Set.remove lru.queue page_id ++ page_id ∷ [] }

unfoldable pub get_lru : LruCache → Option PageId
get_lru lru = elim lru.queue [ [] ↦ none | id ∷ _ ↦ some id ]

unfoldable pub forget : LruCache → PageId → LruCache
forget lru page_id = record lru { queue = Set.remove lru.queue page_id }

unfoldable pub is_full : LruCache → Bool
is_full lru = leb lru.capacity (length lru.queue)

pub record BufferPool : Type 0 where
  pub pages : Map PageId Page
  pub dirty_pages : List PageId
  pub lru : LruCache
  pub hits : ℕ
  pub misses : ℕ

unfoldable pub new : ℕ → BufferPool
new capacity = record {
  pages = [];
  dirty_pages = [];
  lru = record { queue = []; capacity = capacity };
  hits = 0;
  misses = 0;
}

unfoldable pub get_page : BufferPool → PageId → Option Page × BufferPool
unfolding touch
get_page b page_id = elim (get b.pages page_id) [
  | some page ↦ (some page, record b { hits = (b.hits + 1) % 2 ^ 64; lru = touch b.lru page_id })
  | none ↦ (none, record b { misses = (b.misses + 1) % 2 ^ 64 })
]

-- the caller stores what it makes of the page with `store_page`
unfoldable pub get_page_mut : BufferPool → PageId → Option Page × BufferPool
unfolding touch
get_page_mut b page_id = elim (get b.pages page_id) [
  | some page ↦ (
    some page,
    record b {
      hits = (b.hits + 1) % 2 ^ 64;
      lru = touch b.lru page_id;
      dirty_pages = Set.insert b.dirty_pages page_id;
    },
  )
  | none ↦ (none, record b { misses = (b.misses + 1) % 2 ^ 64 })
]

unfoldable pub store_page : BufferPool → PageId → Page → BufferPool
store_page b page_id page = record b { pages = Map.insert b.pages page_id page }

-- a dirty candidate stays, and is the caller's to write; the `Result` of the source is always `Ok`
unfoldable pub evict_page : BufferPool → Option PageId × BufferPool
unfolding get_lru forget
evict_page b = elim (get_lru b.lru) [
  | none ↦ (none, b)
  | some page_id ↦ if contains b.dirty_pages page_id then (some page_id, b) else (
    some page_id,
    record b { pages = Map.remove b.pages page_id; lru = forget b.lru page_id },
  )
]

-- the `Result` of the source is always `Ok`
unfoldable pub insert_page : BufferPool → Page → Option PageId × BufferPool
unfolding touch is_full evict_page
insert_page b page =
    let page_id = page.header.page_id in
    let (evicted, b') =
      (if is_full b.lru && not (contains_key b.pages page_id) then evict_page b else (none, b)) in
    (evicted, record b' { pages = Map.insert b'.pages page_id page; lru = touch b'.lru page_id })

unfoldable pub mark_dirty : BufferPool → PageId → BufferPool
mark_dirty b page_id =
    if contains_key b.pages page_id
    then record b { dirty_pages = Set.insert b.dirty_pages page_id }
    else b

unfoldable pub get_dirty_pages : BufferPool → List PageId
get_dirty_pages b = b.dirty_pages

unfoldable pub clear_dirty : BufferPool → PageId → BufferPool
clear_dirty b page_id = record b { dirty_pages = Set.remove b.dirty_pages page_id }

unfoldable pub clear_all_dirty : BufferPool → BufferPool
clear_all_dirty b = record b { dirty_pages = [] }

unfoldable pub size : BufferPool → ℕ
size b = length b.pages

unfoldable pub dirty_count : BufferPool → ℕ
dirty_count b = length b.dirty_pages

unfoldable pub remove_page : BufferPool → PageId → Option Page × BufferPool
unfolding forget
remove_page b page_id = (
  get b.pages page_id,
  record b {
    lru = forget b.lru page_id;
    dirty_pages = Set.remove b.dirty_pages page_id;
    pages = Map.remove b.pages page_id;
  },
)

-- the pages of the identifiers, those that are in memory
unfoldable pub pages_of : Map PageId Page → List PageId → List (PageId × Page)
pages_of pages [] = []
pages_of pages (id ∷ ids) =
    let rest = pages_of pages ids in
    elim (get pages id) [ none ↦ rest | some page ↦ (id, page) ∷ rest ]

unfoldable pub flush_all : BufferPool → List (PageId × Page)
unfolding pages_of
flush_all b = pages_of b.pages b.dirty_pages
