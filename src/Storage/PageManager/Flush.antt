-- ===== src/Storage/PageManager/Flush.antt =====
-- A single page that is written to its file.
use postgrust_sql.Prelude.{
  ℕ, ◌+◌, ◌%◌, ◌^◌, ◌≡◌, refl, sym, ap, subst, ◌∙◌, Option, none, some, arith,
}
use postgrust_sql.Prelude.Map.{get, contains_key}
use postgrust_sql.Prelude.Set
use postgrust_sql.Prelude.Result.{ok}
use postgrust_sql.Core.Error.{DbResult}
use postgrust_sql.Storage.Page.{Page, PageId, Bincode, page_id_eq}
use postgrust_sql.Storage.BufferPool
use postgrust_sql.Storage.BufferPool.{BufferPool, touch}
use postgrust_sql.Storage.PageManager.{PageManager, PageFiles, flush_found, flush_page}
use postgrust_sql.Storage.PageManager.View.{on_disk, page_or_file, view, IsValid, Same, Same-trans}
use postgrust_sql.Storage.PageManager.Moves.{reordered}
use postgrust_sql.Storage.PageManager.Stores.{store, cleared, flushed, write_page_to_disk-store}
use postgrust_sql.Storage.PageManager.Reads.{touched_queue}

module _ {V : Type 0} (codec : Bincode V) (files : PageFiles) (m : PageManager files)
    (v : IsValid codec files m) (id : PageId) where
  -- what a flush promises
  abbrev IsFlushed : DbResult (Unit {0}) × PageManager files → Type 0
  IsFlushed r =
      (r.0 ≡ ok tt)
      × Same codec files m r.1
      × (on_disk codec files r.1.disk id ≡ view codec files m id)

  abbrev read_pool : BufferPool
  read_pool = record m.buffer_pool {
    hits = (m.buffer_pool.hits + 1) % 2 ^ 64;
    lru = touch m.buffer_pool.lru id;
  }

  IsFlushed-some :
      (page : Page)
      → get m.buffer_pool.pages id ≡ some page
      → IsFlushed (flush_page codec files m id)
  unfolding flush_page flush_found BufferPool.get_page BufferPool.clear_dirty Set.remove touch
      contains_key
  IsFlushed-some page e =
      let (written, here) = flushed codec files m v id page e in
      let m₁ : PageManager files = record m { disk = store codec files m.disk page } in
      let unmarked_m : PageManager files = record m₁ {
        buffer_pool = BufferPool.clear_dirty m.buffer_pool id;
      } in
      let second =
        cleared codec files m₁ written.valid id
          (here ∙ sym (ap (page_or_file codec files m₁.disk id) e)) in
      let third =
        reordered codec files unmarked_m second.valid read_pool.lru read_pool.hits read_pool.misses
          (touched_queue codec files m v id (ground (arith, e))) in
      let looked_up : BufferPool.get_page m.buffer_pool id ≡ (some page, read_pool) =
        rw (BufferPool.get_page, e) refl in
      subst IsFlushed
        (sym (
          ap (flush_found codec files m id) looked_up
          ∙ write_page_to_disk-store codec files
              (record m { buffer_pool = BufferPool.clear_dirty read_pool id }) page))
        (
          refl,
          Same-trans codec files written (Same-trans codec files second third),
          here ∙ sym (ap (page_or_file codec files m.disk id) e),
        )

  IsFlushed-none : get m.buffer_pool.pages id ≡ none → IsFlushed (flush_page codec files m id)
  unfolding flush_page flush_found BufferPool.get_page
  IsFlushed-none e =
      let misses : ℕ = (m.buffer_pool.misses + 1) % 2 ^ 64 in
      let looked_up : BufferPool.get_page m.buffer_pool id
          ≡ (none, record m.buffer_pool { misses = misses }) =
        rw (BufferPool.get_page, e) refl in
      subst IsFlushed (sym (ap (flush_found codec files m id) looked_up)) (
        refl,
        reordered codec files m v m.buffer_pool.lru m.buffer_pool.hits misses v.queued,
        sym (ap (page_or_file codec files m.disk id) e),
      )

  -- A flush of a page in a valid state succeeds, keeps the state valid and the answer for every
  -- page, and afterwards the file of the page gives this answer.
  pub flush_page_effect :
      ((flush_page codec files m id).0 ≡ ok tt)
      × IsValid codec files (flush_page codec files m id).1
      × ((j : PageId) → view codec files (flush_page codec files m id).1 j ≡ view codec files m j)
      × (on_disk codec files (flush_page codec files m id).1.disk id ≡ view codec files m id)
  flush_page_effect =
      let (done, same, there) = by_page (get m.buffer_pool.pages id) refl in
      (done, same.valid, same.answers, there)
    where
      by_page :
          (o : Option Page)
          → get m.buffer_pool.pages id ≡ o
          → IsFlushed (flush_page codec files m id)
      by_page (some page) e = IsFlushed-some page e
      by_page none e = IsFlushed-none e
