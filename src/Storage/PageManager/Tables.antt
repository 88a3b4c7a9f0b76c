-- ===== src/Storage/PageManager/Tables.antt =====
-- New pages of a table, and the pages of a table that is dropped.
use postgrust_sql.Prelude.{
  ℕ, ◌≡◌, refl, sym, ap, ◌∙◌, false, not, Option, none, some, [], ◌∷◌, arith, if◌then◌else◌,
  Bool-cases, inl, inr, subst, length, retain, nat_beq,
}
use postgrust_sql.Prelude.Map.{Map, get, contains_key, get-insert}
use postgrust_sql.Prelude.Set
use postgrust_sql.Prelude.Set.{contains, contains-remove, contains-append}
use postgrust_sql.Prelude.Result.{ok}
use postgrust_sql.Core.Error.{DbResult}
use postgrust_sql.Storage.Page
use postgrust_sql.Storage.Page.{
  Page, PageId, Bincode, new_header, page_id_eq, page_id_beq, page_id_beq_iff,
}
use postgrust_sql.Storage.BufferPool
use postgrust_sql.Storage.BufferPool.{BufferPool, touch}
use postgrust_sql.Storage.PageManager.{
  PageManager, PageFiles, add_created, create_page, files_of, get_page_count, remove_pages,
  delete_table_pages,
}
use postgrust_sql.Storage.PageManager.View.{
  page_or_file, view, IsValid, get-insert_cases, page_or_file-insert,
}
use postgrust_sql.Storage.PageManager.Moves.{dropped}
use postgrust_sql.Storage.PageManager.Stores.{
  store, on_disk-store, readable-store, stored_id-store, write_page_to_disk-store,
}
use postgrust_sql.Storage.PageManager.Insertion.{put, without, insert_page-put}

module _ {V : Type 0} (codec : Bincode V) (files : PageFiles) where
  module _ (m : PageManager files) (v : IsValid codec files m) (page : Page) where
    -- the page was written to its file and put into the pool
    abbrev replaced : PageManager files
    replaced = record { disk = store codec files m.disk page; buffer_pool = put m.buffer_pool page }

    view-replaced :
        (j : PageId)
        → view codec files replaced j
          ≡ (if page_id_beq page.header.page_id j then page else view codec files m j)
    view-replaced j =
        page_or_file-insert codec files (store codec files m.disk page) m.buffer_pool.pages
          page.header.page_id j page
        ∙ elim (Bool-cases (page_id_beq page.header.page_id j)) [
          | inl here ↦ rw (here) refl
          | inr other ↦ rw (other) (by_page other (get m.buffer_pool.pages j))
        ]
      where
        by_page :
            page_id_beq page.header.page_id j ≡ false
            → (o : Option Page)
            → page_or_file codec files (store codec files m.disk page) j o
              ≡ page_or_file codec files m.disk j o
        by_page other (some p) = refl
        by_page other none = on_disk-store codec files m.disk page j ∙ rw (other) refl

    replaced-IsValid : IsValid codec files replaced
    unfolding contains_key touch contains
    replaced-IsValid = record {
      queued = λ j q. ground (
        arith,
        get-insert m.buffer_pool.pages page.header.page_id j page,
        contains-append (Set.remove m.buffer_pool.lru.queue page.header.page_id)
            (page.header.page_id ∷ []) j,
        contains-remove m.buffer_pool.lru.queue page.header.page_id j,
        v.queued j,
      );
      own_id = λ j p e. elim (get-insert_cases page.header.page_id j page p m.buffer_pool.pages e) [
        | inl (here, q) ↦ subst (λ (r : Page). r.header.page_id ≡ j) (sym q) here
        | inr (_, old) ↦ v.own_id j p old
      ];
      clean = λ j p e d.
          elim (get-insert_cases page.header.page_id j page p m.buffer_pool.pages e) [
            | inl (here, q) ↦
                q
                ∙ sym (
                    on_disk-store codec files m.disk page j
                    ∙ rw ((page_id_beq_iff page.header.page_id j).1 here) refl)
            | inr (other, old) ↦
                v.clean j p old d ∙ sym (on_disk-store codec files m.disk page j ∙ rw (other) refl)
          ];
      readable = readable-store codec files m v page;
      stored_id = stored_id-store codec files m v page;
    }

  -- the pool after `insert_page` makes a state in which the page is new
  abbrev HasPage : PageManager files → PageId → BufferPool → Type 0
  HasPage m id b =
      let m' : PageManager files = record {
        disk = store codec files m.disk (Page.new codec id);
        buffer_pool = b;
      } in
      IsValid codec files m'
      × ((j : PageId)
          → view codec files m' j
            ≡ (if page_id_beq id j then Page.new codec id else view codec files m j))

  abbrev IsCreated : PageManager files → PageId → DbResult PageId × PageManager files → Type 0
  IsCreated m id r =
      (r.0 ≡ ok id)
      × IsValid codec files r.1
      × ((j : PageId)
          → view codec files r.1 j
            ≡ (if page_id_beq id j then Page.new codec id else view codec files m j))

  -- A new page of a table, in a valid state: the call succeeds, the state stays valid, the answer
  -- for the page is an empty page, and for every other what it was.
  pub create_page_effect :
      (m : PageManager files) (id : PageId)
      → IsValid codec files m
      → ((create_page codec files m id.table_id id.page_number).0 ≡ ok id)
        × IsValid codec files (create_page codec files m id.table_id id.page_number).1
        × ((j : PageId)
            → view codec files (create_page codec files m id.table_id id.page_number).1 j
              ≡ (if page_id_beq id j then Page.new codec id else view codec files m j))
  unfolding create_page add_created Page.new new_header
  create_page_effect m id v =
      let page : Page = Page.new codec id in
      let has : HasPage m id (BufferPool.insert_page m.buffer_pool page).1 =
        elim (insert_page-put m.buffer_pool page) [
          | inl e ↦ subst (HasPage m id) (sym e) (replaced-IsValid m v page, view-replaced m v page)
          | inr (x, clean, e) ↦
              let first = dropped codec files m v x clean in
              let m' : PageManager files = record m { buffer_pool = without m.buffer_pool x } in
              subst (HasPage m id) (sym e) (
                replaced-IsValid m' first.valid page,
                λ j.
                    view-replaced m' first.valid page j
                    ∙ ap (λ q. if page_id_beq id j then page else q) (first.answers j),
              )
        ] in
      subst (IsCreated m id)
        (sym (ap (add_created codec files page) (write_page_to_disk-store codec files m page)))
        (refl, has.0, has.1)

  -- the pages of a table are counted when its files are gone
  none_left :
      (disk : Map PageId files.Bytes) (table_id : ℕ)
      → files_of codec files (retain (λ e. not (nat_beq e.0.table_id table_id)) disk) table_id ≡ []
  unfolding files_of
  none_left [] table_id = refl
  none_left ((id, bytes) ∷ disk) table_id = ground (arith, none_left disk table_id)

  -- Dropping a table leaves its pages in the buffer pool: a page that was in memory is answered as
  -- before.
  pub dropped_table_stays_cached :
      (m : PageManager files) (id : PageId) (page : Page)
      → get m.buffer_pool.pages id ≡ some page
      → view codec files (delete_table_pages codec files m id.table_id) id ≡ page
  unfolding delete_table_pages get_page_count remove_pages files_of
  dropped_table_stays_cached m id page e =
      let disk : Map PageId files.Bytes = (delete_table_pages codec files m id.table_id).disk in
      ap
        (λ n.
          page_or_file codec files disk id
            (get (remove_pages codec files m.buffer_pool id.table_id 0 n).pages id))
        (ap length (none_left m.disk id.table_id))
      ∙ ap (page_or_file codec files disk id) e
