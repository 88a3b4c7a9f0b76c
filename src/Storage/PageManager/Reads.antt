-- ===== src/Storage/PageManager/Reads.antt =====
-- Reads through the buffer pool, and changes of a page in it.
use postgrust_sql.Prelude.{
  ◌+◌, ◌%◌, ◌^◌, ◌≡◌, refl, sym, ap, ◌∙◌, true, false, Option, none, some, [], ◌∷◌, arith, subst,
}
use postgrust_sql.Prelude.Map.{get, contains_key}
use postgrust_sql.Prelude.Set
use postgrust_sql.Prelude.Set.{contains, contains-remove, contains-append}
use postgrust_sql.Prelude.Result.{ok}
use postgrust_sql.Core.Error.{DbResult}
use postgrust_sql.Storage.Page.{Page, PageId, Bincode, page_id_eq, page_id_beq_iff}
use postgrust_sql.Storage.BufferPool
use postgrust_sql.Storage.BufferPool.{BufferPool, is_full, get_lru, touch, forget}
use postgrust_sql.Storage.PageManager.{
  PageManager, PageFiles, read_page_from_disk, cache_page, get_page, after_lookup, after_read,
}
use postgrust_sql.Storage.PageManager.View.{on_disk, page_or_file, view, IsValid, Same, Same-trans}
use postgrust_sql.Storage.PageManager.Moves.{reordered}
use postgrust_sql.Storage.PageManager.Eviction.{cache_page-IsCached}

module _ {V : Type 0} (codec : Bincode V) (files : PageFiles) where
  read_on_disk :
      (m : PageManager files) (id : PageId)
      → IsValid codec files m
      → read_page_from_disk codec files m id ≡ ok (on_disk codec files m.disk id)
  unfolding read_page_from_disk
  read_on_disk m id v = by_file (get m.disk id) refl
    where
      by_file :
          (o : Option files.Bytes)
          → get m.disk id ≡ o
          → read_page_from_disk codec files m id ≡ ok (on_disk codec files m.disk id)
      by_file none e = rw (read_page_from_disk, e) refl
      by_file (some bytes) e = rw (read_page_from_disk, e, v.readable id bytes e) refl

  module _ (m : PageManager files) (v : IsValid codec files m) (id : PageId) where
    pub touched_queue :
        contains_key m.buffer_pool.pages id ≡ true
        → (j : PageId) → contains (touch m.buffer_pool.lru id).queue j ≡ true
        → contains_key m.buffer_pool.pages j ≡ true
    unfolding touch contains
    touched_queue present j q = ground (
      arith,
      contains-append (Set.remove m.buffer_pool.lru.queue id) (id ∷ []) j,
      contains-remove m.buffer_pool.lru.queue id j,
      v.queued j,
      page_id_beq_iff id j,
    )

    -- what a read promises
    abbrev IsRead : DbResult Page × PageManager files → Type 0
    IsRead r =
        (r.0 ≡ ok (view codec files m id))
        × Same codec files m r.1
        × (get r.1.buffer_pool.pages id ≡ some (view codec files m id))

    by_lookup :
        (r : Option Page × BufferPool)
        → BufferPool.get_page m.buffer_pool id ≡ r
        → IsRead (after_lookup codec files m id r)
        → IsRead (get_page codec files m id)
    unfolding get_page
    by_lookup r e i = subst (λ s. IsRead (after_lookup codec files m id s)) (sym e) i

    IsRead-hit :
        (page : Page) → get m.buffer_pool.pages id ≡ some page → IsRead (get_page codec files m id)
    unfolding get_page after_lookup touch contains_key BufferPool.get_page Set.remove
    IsRead-hit page e =
        by_lookup
          (
            some page,
            record m.buffer_pool {
              hits = (m.buffer_pool.hits + 1) % 2 ^ 64;
              lru = touch m.buffer_pool.lru id;
            },
          )
          (rw (BufferPool.get_page, e) refl)
          (
            sym (ap (λ o. ok (page_or_file codec files m.disk id o)) e),
            reordered codec files m v (touch m.buffer_pool.lru id)
                ((m.buffer_pool.hits + 1) % 2 ^ 64) m.buffer_pool.misses
                (touched_queue (ground (arith, e))),
            e ∙ ap (λ o. some (page_or_file codec files m.disk id o)) (sym e),
          )

    IsRead-miss : get m.buffer_pool.pages id ≡ none → IsRead (get_page codec files m id)
    unfolding contains_key after_lookup after_read BufferPool.get_page
    IsRead-miss e =
        let page : Page = on_disk codec files m.disk id in
        let m' : PageManager files = record m {
          buffer_pool = record m.buffer_pool { misses = (m.buffer_pool.misses + 1) % 2 ^ 64 };
        } in
        let first =
          reordered codec files m v m.buffer_pool.lru m.buffer_pool.hits
            ((m.buffer_pool.misses + 1) % 2 ^ 64) v.queued in
        let here : page.header.page_id ≡ id = v.stored_id id in
        let answer : view codec files m id ≡ page = ap (page_or_file codec files m.disk id) e in
        let (kept, got) =
          cache_page-IsCached codec files m' first.valid page
            (sym answer ∙ ap (view codec files m) (sym here))
            (subst (λ k. contains_key m.buffer_pool.pages k ≡ false) (sym here)
              (ground (arith, e))) in
        by_lookup (none, m'.buffer_pool) (rw (BufferPool.get_page, e) refl)
          (rw (read_on_disk m' id first.valid) (
            rw (kept.0) (
              ap ok (sym answer),
              Same-trans codec files first kept.1,
              subst (λ k. get (cache_page codec files m' page).1.buffer_pool.pages k ≡ some page)
                    here got
                  ∙ ap some (sym answer),
            )))

    -- A read in a valid state returns the answer for the page, brings the page into memory, and
    -- leaves a valid state with the same answer for every page, whatever is evicted or written to
    -- make room.
    pub get_page_effect :
        ((get_page codec files m id).0 ≡ ok (view codec files m id))
        × IsValid codec files (get_page codec files m id).1
        × ((j : PageId) → view codec files (get_page codec files m id).1 j ≡ view codec files m j)
        × (get (get_page codec files m id).1.buffer_pool.pages id ≡ some (view codec files m id))
    get_page_effect =
        let (result, same, got) = by_page (get m.buffer_pool.pages id) refl in
        (result, same.valid, same.answers, got)
      where
        by_page :
            (o : Option Page) → get m.buffer_pool.pages id ≡ o → IsRead (get_page codec files m id)
        by_page (some page) e = IsRead-hit page e
        by_page none e = IsRead-miss e
