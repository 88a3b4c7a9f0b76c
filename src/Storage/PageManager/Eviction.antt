-- ===== src/Storage/PageManager/Eviction.antt =====
-- A page that is brought into memory, and the page that makes room for it.
use postgrust_sql.Prelude.{
  ◌≡◌, refl, sym, ap, ◌∙◌, true, false, Option, none, some, Bool-cases, inl, inr, subst,
}
use postgrust_sql.Prelude.Map
use postgrust_sql.Prelude.Map.{Map, get, contains_key, get-insert, get-remove}
use postgrust_sql.Prelude.Set.{contains}
use postgrust_sql.Core.Error.{DbResult}
use postgrust_sql.Storage.Page.{Page, PageId, Bincode, page_id_eq, page_id_beq, page_id_beq_iff}
use postgrust_sql.Storage.BufferPool
use postgrust_sql.Storage.BufferPool.{BufferPool, is_full, get_lru, touch, forget}
use postgrust_sql.Storage.PageManager.{PageManager, PageFiles, write_back, after_insert, cache_page}
use postgrust_sql.Storage.PageManager.View.{view, IsValid, Same, Same-trans}
use postgrust_sql.Storage.PageManager.Moves.{dropped, cached}
use postgrust_sql.Storage.PageManager.Stores.{Keeps, written_back, write_page_to_disk-store}
use postgrust_sql.Storage.PageManager.Insertion.{
  put, without, crowded, insert_page_with_room, insert_page_without_candidate,
  insert_page_dirty_candidate, insert_page_clean_candidate, front_queued,
}

module _ {V : Type 0} (codec : Bincode V) (files : PageFiles) where
  pool_write_back :
      (m : PageManager files) (id : PageId)
      → (write_back codec files m id).1.buffer_pool ≡ (BufferPool.remove_page m.buffer_pool id).1
  unfolding write_back BufferPool.remove_page
  pool_write_back m id = by_page (get m.buffer_pool.pages id) refl
    where
      by_page :
          (o : Option Page)
          → get m.buffer_pool.pages id ≡ o
          → (write_back codec files m id).1.buffer_pool
            ≡ (BufferPool.remove_page m.buffer_pool id).1
      by_page none e = rw (write_back, e) refl
      by_page (some page) e =
          rw
            (
              write_back,
              e,
              write_page_to_disk-store codec files
                  (record m { buffer_pool = (BufferPool.remove_page m.buffer_pool id).1 }) page,
            )
            refl

  module _ (m : PageManager files) (v : IsValid codec files m) (page : Page)
      (same : page ≡ view codec files m page.header.page_id)
      (miss : contains_key m.buffer_pool.pages page.header.page_id ≡ false) where
    -- what `cache_page` promises
    abbrev pub IsCached : DbResult (Unit {0}) × PageManager files → Type 0
    IsCached r =
        Keeps codec files m tt r × (get r.1.buffer_pool.pages page.header.page_id ≡ some page)

    put-Same : Same codec files m (record m { buffer_pool = put m.buffer_pool page })
    put-Same = cached codec files m v page same

    get_put :
        (b : BufferPool)
        → get (Map.insert b.pages page.header.page_id page) page.header.page_id ≡ some page
    get_put b =
        get-insert b.pages page.header.page_id page.header.page_id page
        ∙ rw ((page_id_beq_iff page.header.page_id page.header.page_id).1 refl) refl

    by_insertion :
        (r : Option PageId × BufferPool)
        → BufferPool.insert_page m.buffer_pool page ≡ r
        → IsCached (after_insert codec files m r)
        → IsCached (cache_page codec files m page)
    unfolding cache_page
    by_insertion r e i = subst (λ s. IsCached (after_insert codec files m s)) (sym e) i

    -- the page that makes room is another one
    other_candidate :
        (id : PageId)
        → get_lru m.buffer_pool.lru ≡ some id
        → page_id_beq id page.header.page_id ≡ false
    other_candidate id l = elim (Bool-cases (page_id_beq id page.header.page_id)) [
      | inr other ↦ other
      | inl here ↦
          let present : contains_key m.buffer_pool.pages id ≡ true =
            v.queued id (front_queued m.buffer_pool.lru.queue m.buffer_pool.lru.capacity id l) in
          let again : contains_key m.buffer_pool.pages page.header.page_id ≡ true =
            subst (λ k. contains_key m.buffer_pool.pages k ≡ true)
              ((page_id_beq_iff id page.header.page_id).0 here) present in
          absurd (cc (again, miss))
    ]

    cache_page_dirty :
        (id : PageId)
        → crowded m.buffer_pool page ≡ true
        → get_lru m.buffer_pool.lru ≡ some id
        → contains m.buffer_pool.dirty_pages id ≡ true
        → IsCached (cache_page codec files m page)
    unfolding cache_page after_insert BufferPool.get_dirty_pages BufferPool.remove_page Map.remove
    cache_page_dirty id c l d =
        let m' : PageManager files = record m { buffer_pool = put m.buffer_pool page } in
        let (done, kept) = written_back codec files m' put-Same.valid id in
        by_insertion (some id, put m.buffer_pool page)
          (insert_page_dirty_candidate m.buffer_pool page id c l d)
          (rw (d) (
            (done, Same-trans codec files put-Same kept),
            ap (λ (b : BufferPool). get b.pages page.header.page_id) (pool_write_back m' id)
                ∙ get-remove (Map.insert m.buffer_pool.pages page.header.page_id page) id
                    page.header.page_id
                ∙ rw (other_candidate id l) (get_put m.buffer_pool),
          ))

    cache_page_clean :
        (id : PageId)
        → crowded m.buffer_pool page ≡ true
        → get_lru m.buffer_pool.lru ≡ some id
        → contains m.buffer_pool.dirty_pages id ≡ false
        → IsCached (cache_page codec files m page)
    unfolding cache_page after_insert BufferPool.get_dirty_pages
    cache_page_clean id c l d =
        let m' : PageManager files = record m { buffer_pool = without m.buffer_pool id } in
        let first = dropped codec files m v id d in
        by_insertion (some id, put (without m.buffer_pool id) page)
          (insert_page_clean_candidate m.buffer_pool page id c l d)
          (rw (d) (
            (
              refl,
              Same-trans codec files first (
                  cached codec files m' first.valid page
                    (same ∙ sym (first.answers page.header.page_id))),
            ),
            get_put (without m.buffer_pool id),
          ))

    pub cache_page-IsCached : IsCached (cache_page codec files m page)
    unfolding cache_page after_insert BufferPool.get_dirty_pages
    cache_page-IsCached = elim (Bool-cases (crowded m.buffer_pool page)) [
      | inr room ↦
          by_insertion (none, put m.buffer_pool page)
            (insert_page_with_room m.buffer_pool page room)
            ((refl, put-Same), get_put m.buffer_pool)
      | inl full ↦ by_candidate full (get_lru m.buffer_pool.lru) refl
    ]
      where
        by_candidate :
            crowded m.buffer_pool page ≡ true
            → (o : Option PageId) → get_lru m.buffer_pool.lru ≡ o
            → IsCached (cache_page codec files m page)
        by_candidate full none l =
            by_insertion (none, put m.buffer_pool page)
              (insert_page_without_candidate m.buffer_pool page full l)
              ((refl, put-Same), get_put m.buffer_pool)
        by_candidate full (some id) l = elim (Bool-cases (contains m.buffer_pool.dirty_pages id)) [
          | inl dirty ↦ cache_page_dirty id full l dirty
          | inr clean ↦ cache_page_clean id full l clean
        ]
