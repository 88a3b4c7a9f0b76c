-- ===== src/Storage/PageManager/Checkpoint.antt =====
-- A checkpoint writes every change to the files, and a manager started anew on them gives the same
-- answers.
use postgrust_sql.Prelude.{
  ℕ, ◌≡◌, refl, sym, ap, ◌∙◌, true, Option, none, some, List, [], ◌∷◌, arith, length, Bool-cases,
  inl, inr, subst,
}
use postgrust_sql.Prelude.Map.{Map, get}
use postgrust_sql.Prelude.Set.{contains}
use postgrust_sql.Prelude.Result.{ok, ◌>>=◌}
use postgrust_sql.Core.Error.{DbResult}
use postgrust_sql.Storage.Page.{Page, PageId, Bincode, page_id_eq, page_id_beq, page_id_beq_iff}
use postgrust_sql.Storage.BufferPool
use postgrust_sql.Storage.BufferPool.{BufferPool, pages_of, flush_all}
use postgrust_sql.Storage.PageManager.{
  PageManager, PageFiles, new, unless_failed, write_all, checkpoint,
}
use postgrust_sql.Storage.PageManager.View.{on_disk, page_or_file, view, IsValid, Same, Same-trans}
use postgrust_sql.Storage.PageManager.Moves.{unmarked, clean_answer}
use postgrust_sql.Storage.PageManager.Stores.{
  store, flushed, on_disk-store, write_page_to_disk-store,
}

pages_of-some :
    (pages : Map PageId Page) (id : PageId) (ids : List PageId) (page : Page)
    → get pages id ≡ some page
    → pages_of pages (id ∷ ids) ≡ (id, page) ∷ pages_of pages ids
unfolding pages_of
pages_of-some pages id ids page e = rw (pages_of, e) refl

pages_of-none :
    (pages : Map PageId Page) (id : PageId) (ids : List PageId)
    → get pages id ≡ none
    → pages_of pages (id ∷ ids) ≡ pages_of pages ids
unfolding pages_of
pages_of-none pages id ids e = rw (pages_of, e) refl

module _ {V : Type 0} (codec : Bincode V) (files : PageFiles) where
  open files use {Bytes}

  -- the files after the pages were written one after the other
  abbrev stores : Map PageId Bytes → List (PageId × Page) → Map PageId Bytes
  stores disk [] = disk
  stores disk ((id, page) ∷ pages) = stores (store codec files disk page) pages

  write_all-stores :
      (m : PageManager files) (pages : List (PageId × Page))
      → write_all codec files m pages ≡ (ok tt, record m { disk = stores m.disk pages })
  unfolding write_all unless_failed
  write_all-stores m [] = refl
  write_all-stores m ((id, page) ∷ pages) =
      ap (λ r. unless_failed codec files r (λ m'. write_all codec files m' pages))
        (write_page_to_disk-store codec files m page)
      ∙ write_all-stores (record m { disk = store codec files m.disk page }) pages

  -- every answer is kept; a file that had the answer still has it, and those of the pages have it
  abbrev IsWritten : PageManager files → List PageId → Map PageId Bytes → Type 0
  IsWritten m ids disk =
      Same codec files m (record m { disk = disk })
      × ((j : PageId)
          → on_disk codec files m.disk j ≡ view codec files m j
          → on_disk codec files disk j ≡ view codec files m j)
      × ((j : PageId) → contains ids j ≡ true → on_disk codec files disk j ≡ view codec files m j)

  -- a page that is not in memory is not written
  IsWritten-none :
      (m : PageManager files) (id : PageId)
      → get m.buffer_pool.pages id ≡ none
      → (ids : List PageId) (disk : Map PageId Bytes) → IsWritten m ids disk
      → IsWritten m (id ∷ ids) disk
  unfolding contains
  IsWritten-none m id e ids disk (same, kept, written) = (
    same,
    kept,
    λ j c. elim (Bool-cases (page_id_beq id j)) [
      | inl here ↦ kept j (
          subst (λ k. on_disk codec files m.disk k ≡ view codec files m k)
            ((page_id_beq_iff id j).0 here) (sym (ap (page_or_file codec files m.disk id) e)))
      | inr other ↦ written j (ground (arith, c, other))
    ],
  )

  module _ (m : PageManager files) (v : IsValid codec files m) (id : PageId) (page : Page)
      (e : get m.buffer_pool.pages id ≡ some page) where
    abbrev m_written : PageManager files
    m_written = record m { disk = store codec files m.disk page }

    -- the file of the page that was written
    settled_here : on_disk codec files m_written.disk id ≡ view codec files m_written id
    settled_here =
        (flushed codec files m v id page e).1
        ∙ sym (ap (page_or_file codec files m_written.disk id) e)

    settled_kept :
        (j : PageId)
        → on_disk codec files m.disk j ≡ view codec files m j
        → on_disk codec files m_written.disk j ≡ view codec files m_written j
    settled_kept j q = elim (Bool-cases (page_id_beq page.header.page_id j)) [
      | inl here ↦
          subst (λ k. on_disk codec files m_written.disk k ≡ view codec files m_written k)
            (sym (v.own_id id page e) ∙ (page_id_beq_iff page.header.page_id j).0 here) settled_here
      | inr other ↦
          on_disk-store codec files m.disk page j
          ∙ rw (other) (q ∙ sym ((flushed codec files m v id page e).0.answers j))
    ]

    IsWritten-some :
        (ids : List PageId) (disk : Map PageId Bytes)
        → IsWritten m_written ids disk
        → IsWritten m (id ∷ ids) disk
    unfolding contains
    IsWritten-some ids disk (rest, kept, written) =
        let (same, _) = flushed codec files m v id page e in
        (
          Same-trans codec files same rest,
          λ j q. kept j (settled_kept j q) ∙ same.answers j,
          λ j c. elim (Bool-cases (page_id_beq id j)) [
            | inl here ↦
                kept j (
                  subst (λ k. on_disk codec files m_written.disk k ≡ view codec files m_written k)
                    ((page_id_beq_iff id j).0 here) settled_here)
                ∙ same.answers j
            | inr other ↦ written j (ground (arith, c, other)) ∙ same.answers j
          ],
        )

  stores-IsWritten :
      (m : PageManager files) (ids : List PageId)
      → IsValid codec files m
      → IsWritten m ids (stores m.disk (pages_of m.buffer_pool.pages ids))
  unfolding pages_of contains
  stores-IsWritten m [] v =
      (record { valid = v; answers = λ j. refl }, λ j q. q, λ j c. absurd (ground (arith, c)))
  stores-IsWritten m (id ∷ ids) v =
      by_page (get m.buffer_pool.pages id) refl (λ w i. stores-IsWritten w ids i)
    where
      by_page :
          (o : Option Page)
          → get m.buffer_pool.pages id ≡ o
          → ((w : PageManager files)
              → IsValid codec files w
              → IsWritten w ids (stores w.disk (pages_of w.buffer_pool.pages ids)))
          → IsWritten m (id ∷ ids) (stores m.disk (pages_of m.buffer_pool.pages (id ∷ ids)))
      by_page (some page) e rest =
          subst (λ l. IsWritten m (id ∷ ids) (stores m.disk l))
            (sym (pages_of-some m.buffer_pool.pages id ids page e))
            (IsWritten-some m v id page e ids
              (stores (store codec files m.disk page) (pages_of m.buffer_pool.pages ids))
              (rest (m_written m v id page e) (flushed codec files m v id page e).0.valid))
      by_page none e rest =
          subst (λ l. IsWritten m (id ∷ ids) (stores m.disk l))
            (sym (pages_of-none m.buffer_pool.pages id ids e))
            (IsWritten-none m id e ids (stores m.disk (pages_of m.buffer_pool.pages ids))
              (rest m v))

  module _ (m : PageManager files) (v : IsValid codec files m) where
    -- the files after a checkpoint
    abbrev all_stored : Map PageId Bytes
    all_stored = stores m.disk (pages_of m.buffer_pool.pages m.buffer_pool.dirty_pages)

    all_settled : (j : PageId) → on_disk codec files all_stored j ≡ view codec files m j
    all_settled j =
        let (_, kept, written) = stores-IsWritten m m.buffer_pool.dirty_pages v in
        elim (Bool-cases (contains m.buffer_pool.dirty_pages j)) [
          | inl dirty ↦ written j dirty
          | inr clean ↦
              kept j (sym (clean_answer codec files m v j (get m.buffer_pool.pages j) refl clean))
        ]

    checkpoint-stored : checkpoint codec files m ≡ (
      ok (length (flush_all m.buffer_pool)),
      record m { disk = all_stored; buffer_pool = BufferPool.clear_all_dirty m.buffer_pool },
    )
    unfolding checkpoint flush_all
    checkpoint-stored =
        let pages : List (PageId × Page) = pages_of m.buffer_pool.pages m.buffer_pool.dirty_pages in
        ap (λ (r : DbResult (Unit {0}) × PageManager files). (r.0 >>= λ _. ok (length pages), r.1))
          (write_all-stores (record m { buffer_pool = BufferPool.clear_all_dirty m.buffer_pool })
            pages)

    -- A checkpoint in a valid state succeeds, returns the number of dirty pages in memory, and leaves
    -- a valid state with the same answer for every page; a manager that starts anew on the files,
    -- with a buffer pool of any size, gives the same answers too.
    pub checkpoint_effect :
        ((checkpoint codec files m).0 ≡ ok (length (flush_all m.buffer_pool)))
        × IsValid codec files (checkpoint codec files m).1
        × ((j : PageId) → view codec files (checkpoint codec files m).1 j ≡ view codec files m j)
        × ((size : ℕ) (j : PageId)
            → view codec files (new codec files (checkpoint codec files m).1.disk size) j
              ≡ view codec files m j)
    unfolding new BufferPool.new get BufferPool.clear_all_dirty
    checkpoint_effect =
        let (same, _, _) = stores-IsWritten m m.buffer_pool.dirty_pages v in
        let after =
          unmarked codec files (record m { disk = all_stored }) same.valid []
            (λ j c. inr (all_settled j ∙ sym (same.answers j))) in
        rw (checkpoint-stored)
          (refl, after.valid, λ j. after.answers j ∙ same.answers j, λ size j. all_settled j)
