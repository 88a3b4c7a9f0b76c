-- ===== src/Storage/PageManager/Updates.antt =====
-- Changes of a page in the buffer pool, and new pages.
use postgrust_sql.Prelude.{
  ◌+◌, ◌%◌, ◌^◌, ◌≡◌, refl, sym, ap, ◌∙◌, true, false, some, arith, if◌then◌else◌, inl, inr,
}
use postgrust_sql.Prelude.Map
use postgrust_sql.Prelude.Map.{Map, get, contains_key, get-insert, get-remove}
use postgrust_sql.Prelude.Set
use postgrust_sql.Prelude.Set.{contains, contains-insert}
use postgrust_sql.Core.Error.{DbResult}
use postgrust_sql.Storage.Page.{Page, PageId, Bincode, page_id_eq, page_id_beq, page_id_beq_iff}
use postgrust_sql.Storage.BufferPool
use postgrust_sql.Storage.BufferPool.{BufferPool, touch}
use postgrust_sql.Storage.PageManager.{
  PageManager, PageFiles, get_page, apply_closure, get_mut, use_guard, with_page_mut,
}
use postgrust_sql.Storage.PageManager.View.{view, IsValid, get-insert_cases, page_or_file-insert}
use postgrust_sql.Storage.PageManager.Reads.{get_page_effect, touched_queue}

module _ {V : Type 0} (codec : Bincode V) (files : PageFiles) where
  module _ (m : PageManager files) (v : IsValid codec files m) (id : PageId) (page : Page)
      (cached_page : get m.buffer_pool.pages id ≡ some page) {R : Type 0}
      (f : Page → DbResult R × Page) (keeps_id : (f page).1.header.page_id ≡ id) where
    -- the pool after the closure
    abbrev changed_pool : BufferPool
    changed_pool = record m.buffer_pool {
      pages = Map.insert m.buffer_pool.pages id (f page).1;
      dirty_pages = Set.insert m.buffer_pool.dirty_pages id;
      lru = touch m.buffer_pool.lru id;
      hits = (m.buffer_pool.hits + 1) % 2 ^ 64;
    }

    get_mut-changed :
        get_mut codec files m id f ≡ ((f page).0, record m { buffer_pool = changed_pool })
    unfolding get_mut apply_closure BufferPool.get_page_mut BufferPool.store_page touch Set.remove
    get_mut-changed = ap (apply_closure codec files m id f) looked_up
      where
        looked_up :
            BufferPool.get_page_mut m.buffer_pool id
            ≡ (some page, record changed_pool { pages = m.buffer_pool.pages })
        looked_up = rw (BufferPool.get_page_mut, cached_page) refl

    changed_pool-IsValid : IsValid codec files (record m { buffer_pool = changed_pool })
    unfolding contains_key
    changed_pool-IsValid = record {
      queued = λ j q. ground (
        arith,
        touched_queue codec files m v id (ground (arith, cached_page)) j q,
        get-insert m.buffer_pool.pages id j (f page).1,
      );
      own_id = λ j p e. elim (get-insert_cases id j (f page).1 p m.buffer_pool.pages e) [
        | inl (here, q) ↦ ap (λ (r : Page). r.header.page_id) q ∙ keeps_id ∙ here
        | inr (_, old) ↦ v.own_id j p old
      ];
      clean = λ j p e d.
          let at : (if page_id_beq id j then true else contains m.buffer_pool.dirty_pages j)
              ≡ false =
            sym (contains-insert m.buffer_pool.dirty_pages id j) ∙ d in
          elim (get-insert_cases id j (f page).1 p m.buffer_pool.pages e) [
            | inl (here, q) ↦ absurd (ground (arith, at, (page_id_beq_iff id j).1 here))
            | inr (other, old) ↦ v.clean j p old (ground (arith, at, other))
          ];
      readable = v.readable;
      stored_id = v.stored_id;
    }

  -- A change of a page through `get_page_mut`, by a closure that leaves the page its identifier:
  -- the closure gets the answer for the page, its result is returned, the state stays valid, and
  -- afterwards the answer is what the closure left for this page, and what it was for every other.
  pub with_page_mut_effect :
      {R : Type 0} (m : PageManager files) (id : PageId) (f : Page → DbResult R × Page)
      → IsValid codec files m
      → (f (view codec files m id)).1.header.page_id ≡ id
      → ((with_page_mut codec files m id f).0 ≡ (f (view codec files m id)).0)
        × IsValid codec files (with_page_mut codec files m id f).1
        × ((j : PageId)
            → view codec files (with_page_mut codec files m id f).1 j
              ≡ (if page_id_beq id j then (f (view codec files m id)).1 else view codec files m j))
  unfolding with_page_mut use_guard
  with_page_mut_effect m id f v keeps =
      let page : Page = view codec files m id in
      let (result, valid, same, got) = get_page_effect codec files m v id in
      let m' : PageManager files = (get_page codec files m id).1 in
      let equation : with_page_mut codec files m id f
          ≡ ((f page).0, record m' { buffer_pool = changed_pool m' valid id page got f keeps }) =
        ap (λ o. use_guard codec files id f (o, m')) result
        ∙ get_mut-changed m' valid id page got f keeps in
      rw (equation) (
        refl,
        changed_pool-IsValid m' valid id page got f keeps,
        λ j.
            page_or_file-insert codec files m'.disk m'.buffer_pool.pages id j (f page).1
            ∙ ap (λ q. if page_id_beq id j then (f page).1 else q) (same j),
      )
