-- ===== src/Storage/PageManager/Stores.antt =====
-- Pages that are written to their files.
use postgrust_sql.Prelude.{
  ◌≡◌, ◌⊎◌, refl, sym, ap, ◌∙◌, true, false, Option, none, some, arith, if◌then◌else◌, Bool-cases,
  inl, inr, subst,
}
use postgrust_sql.Prelude.Map
use postgrust_sql.Prelude.Map.{Map, get, contains_key, get-insert}
use postgrust_sql.Prelude.Set
use postgrust_sql.Prelude.Set.{contains, contains-remove}
use postgrust_sql.Prelude.Result.{ok}
use postgrust_sql.Core.Error.{DbResult}
use postgrust_sql.Storage.Page.{Page, PageId, Bincode, page_id_eq, page_id_beq, page_id_beq_iff}
use postgrust_sql.Storage.BufferPool
use postgrust_sql.Storage.BufferPool.{pages_of}
use postgrust_sql.Storage.PageManager.{PageManager, PageFiles, write_page_to_disk, write_back}
use postgrust_sql.Storage.PageManager.View.{
  on_disk, page_or_file, view, IsValid, Same, Same-trans, get-insert_cases,
}
use postgrust_sql.Storage.PageManager.Moves.{dropped, unmarked}

module _ {V : Type 0} (codec : Bincode V) (files : PageFiles) where
  open files use {Bytes, deserialize_page, page_encodes, page_round_trip}

  abbrev pub encode : Page → Bytes
  encode page = (page_encodes page).0

  -- the files after the page was written
  abbrev pub store : Map PageId Bytes → Page → Map PageId Bytes
  store disk page = Map.insert disk page.header.page_id (encode page)

  pub write_page_to_disk-store :
      (m : PageManager files) (page : Page)
      → write_page_to_disk codec files m page ≡ (ok tt, record m { disk = store m.disk page })
  unfolding write_page_to_disk
  write_page_to_disk-store m page = ground (arith, (page_encodes page).1)

  pub on_disk-store :
      (disk : Map PageId Bytes) (page : Page) (j : PageId)
      → on_disk codec files (store disk page) j
        ≡ (if page_id_beq page.header.page_id j then page else on_disk codec files disk j)
  on_disk-store disk page j = elim (Bool-cases (page_id_beq page.header.page_id j)) [
    | inl here ↦
        rw
          (
            get-insert disk page.header.page_id j (encode page),
            here,
            page_round_trip page (encode page) (page_encodes page).1,
          )
          refl
    | inr other ↦ rw (get-insert disk page.header.page_id j (encode page), other) refl
  ]

  pub on_disk-store_other :
      (disk : Map PageId Bytes) (page : Page) (j : PageId)
      → page_id_beq page.header.page_id j ≡ false
      → on_disk codec files (store disk page) j ≡ on_disk codec files disk j
  on_disk-store_other disk page j other = on_disk-store disk page j ∙ rw (other) refl

  pub on_disk-store_here :
      (disk : Map PageId Bytes) (page : Page) (j : PageId)
      → page_id_beq page.header.page_id j ≡ true
      → on_disk codec files (store disk page) j ≡ page
  on_disk-store_here disk page j here = on_disk-store disk page j ∙ rw (here) refl

  module _ (m : PageManager files) (v : IsValid codec files m) (page : Page) where
    pub readable-store :
        (j : PageId) (bytes : Bytes)
        → get (store m.disk page) j ≡ some bytes
        → deserialize_page bytes ≡ ok (on_disk codec files (store m.disk page) j)
    readable-store j bytes e =
        elim (get-insert_cases page.header.page_id j (encode page) bytes m.disk e) [
          | inl (here, q) ↦
              ap deserialize_page q
              ∙ page_round_trip page (encode page) (page_encodes page).1
              ∙ ap ok (
                  sym (
                    on_disk-store m.disk page j
                    ∙ rw ((page_id_beq_iff page.header.page_id j).1 here) refl))
          | inr (other, old) ↦
              v.readable j bytes old ∙ ap ok (sym (on_disk-store m.disk page j ∙ rw (other) refl))
        ]

    pub stored_id-store :
        (j : PageId) → (on_disk codec files (store m.disk page) j).header.page_id ≡ j
    stored_id-store j = elim (Bool-cases (page_id_beq page.header.page_id j)) [
      | inl here ↦
          ap (λ (q : Page). q.header.page_id) (on_disk-store_here m.disk page j here)
          ∙ (page_id_beq_iff page.header.page_id j).0 here
      | inr other ↦
          ap (λ (q : Page). q.header.page_id) (on_disk-store_other m.disk page j other)
          ∙ v.stored_id j
    ]

  module _ (m : PageManager files) (v : IsValid codec files m) (page : Page)
      (same : page ≡ view codec files m page.header.page_id) where
    on_disk-stored :
        (j : PageId)
        → (on_disk codec files (store m.disk page) j ≡ on_disk codec files m.disk j)
          ⊎ ((page.header.page_id ≡ j) × (on_disk codec files (store m.disk page) j ≡ page))
    on_disk-stored j = elim (Bool-cases (page_id_beq page.header.page_id j)) [
      | inl here ↦ inr (
        (page_id_beq_iff page.header.page_id j).0 here,
        on_disk-store m.disk page j ∙ rw (here) refl,
      )
      | inr other ↦ inl (on_disk-store m.disk page j ∙ rw (other) refl)
    ]

    -- the answer for a page was written to its file
    pub stored : Same codec files m (record m { disk = store m.disk page })
    stored = record {
      valid = record {
        queued = v.queued;
        own_id = v.own_id;
        clean = λ j p e d. elim (on_disk-stored j) [
          | inl old ↦ v.clean j p e d ∙ sym old
          | inr (here, new) ↦
              ap (page_or_file codec files m.disk j) (sym e)
              ∙ sym (new ∙ same ∙ ap (view codec files m) here)
        ];
        readable = readable-store m v page;
        stored_id = stored_id-store m v page;
      };
      answers = λ j. by_page j (get m.buffer_pool.pages j) refl;
    }
      where
        by_page :
            (j : PageId) (o : Option Page)
            → get m.buffer_pool.pages j ≡ o
            → page_or_file codec files (store m.disk page) j o ≡ page_or_file codec files m.disk j o
        by_page j (some p) e = refl
        by_page j none e = elim (on_disk-stored j) [
          | inl old ↦ old
          | inr (here, new) ↦
              new ∙ same ∙ ap (view codec files m) here ∙ ap (page_or_file codec files m.disk j) e
        ]

  module _ (m : PageManager files) (v : IsValid codec files m) (id : PageId) where
    -- the mark of a page is taken away, of which the file has the answer
    pub cleared :
        on_disk codec files m.disk id ≡ view codec files m id
        → Same codec files m (record m { buffer_pool = BufferPool.clear_dirty m.buffer_pool id })
    unfolding BufferPool.clear_dirty
    cleared settled = unmarked codec files m v (Set.remove m.buffer_pool.dirty_pages id) (λ j d.
        elim (Bool-cases (page_id_beq id j)) [
          | inl here ↦ inr (
              subst (λ k. on_disk codec files m.disk k ≡ view codec files m k)
                ((page_id_beq_iff id j).0 here) settled)
          | inr other ↦ inl (ground (arith, contains-remove m.buffer_pool.dirty_pages id j, other))
        ])

    -- a page of which the file has the answer is taken out of memory
    pub removed :
        on_disk codec files m.disk id ≡ view codec files m id
        → Same codec files m
            (record m { buffer_pool = (BufferPool.remove_page m.buffer_pool id).1 })
    unfolding BufferPool.remove_page BufferPool.clear_dirty
    removed settled =
        let unmarked_m : PageManager files = record m {
          buffer_pool = BufferPool.clear_dirty m.buffer_pool id;
        } in
        let first = cleared settled in
        Same-trans codec files first (
          dropped codec files unmarked_m first.valid id (
            ground (arith, contains-remove m.buffer_pool.dirty_pages id id, page_id_beq_iff id id)))

  -- an outcome and a state with the same answers
  abbrev pub Keeps : {A : Type 0} → PageManager files → A → DbResult A × PageManager files → Type 0
  Keeps m a r = (r.0 ≡ ok a) × Same codec files m r.1

  module _ (m : PageManager files) (v : IsValid codec files m) (id : PageId) where
    view_cached :
        (page : Page)
        → get m.buffer_pool.pages id ≡ some page
        → page ≡ view codec files m page.header.page_id
    view_cached page e =
        sym (ap (page_or_file codec files m.disk id) e)
        ∙ ap (view codec files m) (sym (v.own_id id page e))

    -- the page of the memory was written
    pub flushed :
        (page : Page)
        → get m.buffer_pool.pages id ≡ some page
        → Same codec files m (record m { disk = store m.disk page })
          × (on_disk codec files (store m.disk page) id ≡ page)
    flushed page e = (
      stored m v page (view_cached page e),
      on_disk-store m.disk page id
          ∙ rw ((page_id_beq_iff page.header.page_id id).1 (v.own_id id page e)) refl,
    )

    -- the dirty page that was chosen for eviction
    pub written_back : Keeps m tt (write_back codec files m id)
    unfolding write_back BufferPool.remove_page
    written_back = by_page (get m.buffer_pool.pages id) refl
      where
        by_page :
            (o : Option Page)
            → get m.buffer_pool.pages id ≡ o
            → Keeps m tt (write_back codec files m id)
        by_page none e =
            rw (write_back, e)
              (refl, removed m v id (sym (ap (page_or_file codec files m.disk id) e)))
        by_page (some page) e =
            let (same, settled) = flushed page e in
            let m' : PageManager files = record m {
              buffer_pool = (BufferPool.remove_page m.buffer_pool id).1;
            } in
            rw (write_back, e, write_page_to_disk-store m' page)
              (
                refl,
                Same-trans codec files same (
                    removed (record m { disk = store m.disk page }) same.valid id
                      (settled ∙ sym (ap (page_or_file codec files (store m.disk page) id) e))),
              )
