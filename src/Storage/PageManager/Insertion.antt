-- ===== src/Storage/PageManager/Insertion.antt =====
-- What `insert_page` of src/storage/buffer_pool.rs does to the pool, by the page it chooses to evict.
use postgrust_sql.Prelude.{
  ℕ, ◌≡◌, ◌⊎◌, refl, ap, Bool, true, false, not, ◌&&◌, Option, none, some, List, [], ◌∷◌, arith,
  Bool-cases, inl, inr,
}
use postgrust_sql.Prelude.Map
use postgrust_sql.Prelude.Map.{Map, get, contains_key, get-insert, get-remove}
use postgrust_sql.Prelude.Set.{contains}
use postgrust_sql.Storage.Page.{Page, PageId, page_id_eq, page_id_beq_iff}
use postgrust_sql.Storage.BufferPool
use postgrust_sql.Storage.BufferPool.{BufferPool, is_full, get_lru, touch, forget}

-- what `insert_page` does to the pool after any eviction
abbrev pub put : BufferPool → Page → BufferPool
put b page = record b {
  pages = Map.insert b.pages page.header.page_id page;
  lru = touch b.lru page.header.page_id;
}

abbrev pub without : BufferPool → PageId → BufferPool
without b id = record b { pages = Map.remove b.pages id; lru = forget b.lru id }

abbrev pub crowded : BufferPool → Page → Bool
crowded b page = is_full b.lru && not (contains_key b.pages page.header.page_id)

pub insert_page_with_room :
    (b : BufferPool) (page : Page)
    → crowded b page ≡ false
    → BufferPool.insert_page b page ≡ (none, put b page)
unfolding BufferPool.insert_page
insert_page_with_room b page c = rw (c) refl

pub insert_page_without_candidate :
    (b : BufferPool) (page : Page)
    → crowded b page ≡ true
    → get_lru b.lru ≡ none
    → BufferPool.insert_page b page ≡ (none, put b page)
unfolding BufferPool.insert_page BufferPool.evict_page
insert_page_without_candidate b page c l = rw (c, BufferPool.evict_page, l) refl

pub insert_page_dirty_candidate :
    (b : BufferPool) (page : Page) (id : PageId)
    → crowded b page ≡ true
    → get_lru b.lru ≡ some id
    → contains b.dirty_pages id ≡ true
    → BufferPool.insert_page b page ≡ (some id, put b page)
unfolding BufferPool.insert_page BufferPool.evict_page
insert_page_dirty_candidate b page id c l d = rw (c, BufferPool.evict_page, l, d) refl

pub insert_page_clean_candidate :
    (b : BufferPool) (page : Page) (id : PageId)
    → crowded b page ≡ true
    → get_lru b.lru ≡ some id
    → contains b.dirty_pages id ≡ false
    → BufferPool.insert_page b page ≡ (some id, put (without b id) page)
unfolding BufferPool.insert_page BufferPool.evict_page
insert_page_clean_candidate b page id c l d = rw (c, BufferPool.evict_page, l, d) refl

-- whatever is evicted, the page is put into the pool, from which at most a clean page was taken
pub insert_page-put :
    (b : BufferPool) (page : Page)
    → ((BufferPool.insert_page b page).1 ≡ put b page)
      ⊎ ((id : PageId) × (contains b.dirty_pages id ≡ false)
          × ((BufferPool.insert_page b page).1 ≡ put (without b id) page))
insert_page-put b page = elim (Bool-cases (crowded b page)) [
  | inr room ↦
      inl (ap (λ (r : Option PageId × BufferPool). r.1) (insert_page_with_room b page room))
  | inl full ↦ by_candidate full (get_lru b.lru) refl
]
  where
    by_candidate :
        crowded b page ≡ true
        → (o : Option PageId) → get_lru b.lru ≡ o
        → ((BufferPool.insert_page b page).1 ≡ put b page)
          ⊎ ((id : PageId) × (contains b.dirty_pages id ≡ false)
              × ((BufferPool.insert_page b page).1 ≡ put (without b id) page))
    by_candidate full none l =
        inl (
          ap (λ (r : Option PageId × BufferPool). r.1)
            (insert_page_without_candidate b page full l))
    by_candidate full (some id) l = elim (Bool-cases (contains b.dirty_pages id)) [
      | inl dirty ↦ inl (
          ap (λ (r : Option PageId × BufferPool). r.1)
            (insert_page_dirty_candidate b page id full l dirty))
      | inr clean ↦ inr (
        id,
        clean,
        ap (λ (r : Option PageId × BufferPool). r.1)
            (insert_page_clean_candidate b page id full l clean),
      )
    ]

pub front_queued :
    (queue : List PageId) (capacity : ℕ) (id : PageId)
    → get_lru (record { queue = queue; capacity = capacity }) ≡ some id
    → contains queue id ≡ true
unfolding get_lru contains
front_queued [] capacity id e = cc
front_queued (x ∷ queue) capacity id e = ground (arith, page_id_beq_iff x id)
