-- ===== src/Storage/PageManager/Moves.antt =====
-- Changes behind the scenes that leave the answer for every page alone.
use postgrust_sql.Prelude.{
  ℕ, ◌≡◌, refl, sym, ap, ◌∙◌, true, false, Option, none, some, List, [], ◌∷◌, arith, if◌then◌else◌,
  Bool-cases, inl, inr, subst, ◌⊎◌,
}
use postgrust_sql.Prelude.Map
use postgrust_sql.Prelude.Map.{Map, get, contains_key, get-insert, get-remove}
use postgrust_sql.Prelude.Set
use postgrust_sql.Prelude.Set.{contains, contains-remove, contains-append, contains-insert}
use postgrust_sql.Storage.Page.{Page, PageId, Bincode, page_id_eq, page_id_beq, page_id_beq_iff}
use postgrust_sql.Storage.BufferPool.{LruCache, touch, forget}
use postgrust_sql.Storage.PageManager.{PageManager, PageFiles}
use postgrust_sql.Storage.PageManager.View.{
  get-insert_cases, on_disk, page_or_file, view, IsValid, Same, page_or_file-remove,
  page_or_file-insert,
}

module _ {V : Type 0} (codec : Bincode V) (files : PageFiles) where
  module _ (m : PageManager files) (v : IsValid codec files m) where
    pub clean_answer :
        (j : PageId) (o : Option Page)
        → get m.buffer_pool.pages j ≡ o
        → contains m.buffer_pool.dirty_pages j ≡ false
        → page_or_file codec files m.disk j o ≡ on_disk codec files m.disk j
    clean_answer j none e d = refl
    clean_answer j (some page) e d = v.clean j page e d

    -- only the order of use and the statistics changed
    pub reordered :
        (lru : LruCache) (hits misses : ℕ)
        → ((id : PageId)
            → contains lru.queue id ≡ true
            → contains_key m.buffer_pool.pages id ≡ true)
        → Same codec files m (record m {
          buffer_pool = record m.buffer_pool { lru = lru; hits = hits; misses = misses };
        })
    reordered lru hits misses q = record {
      valid = record {
        queued = q;
        own_id = v.own_id;
        clean = v.clean;
        readable = v.readable;
        stored_id = v.stored_id;
      };
      answers = λ id. refl;
    }

    -- a clean page was taken out of memory
    pub dropped :
        (id : PageId)
        → contains m.buffer_pool.dirty_pages id ≡ false
        → Same codec files m (record m {
          buffer_pool = record m.buffer_pool {
            pages = Map.remove m.buffer_pool.pages id;
            lru = forget m.buffer_pool.lru id;
          };
        })
    unfolding contains_key forget
    dropped id c = record {
      valid = record {
        queued = λ j q. ground (
          arith,
          get-remove m.buffer_pool.pages id j,
          contains-remove m.buffer_pool.lru.queue id j,
          v.queued j,
        );
        own_id = λ j p e. ground (arith, get-remove m.buffer_pool.pages id j, v.own_id j p);
        clean = λ j p e d. ground (arith, get-remove m.buffer_pool.pages id j, v.clean j p);
        readable = v.readable;
        stored_id = v.stored_id;
      };
      answers = λ j. elim (Bool-cases (page_id_beq id j)) [
        | inl here ↦
            page_or_file-remove codec files m.disk m.buffer_pool.pages id j
            ∙ rw (here) (
                sym (
                  clean_answer j (get m.buffer_pool.pages j) refl (
                    subst (λ k. contains m.buffer_pool.dirty_pages k ≡ false)
                      ((page_id_beq_iff id j).0 here) c)))
        | inr other ↦
            page_or_file-remove codec files m.disk m.buffer_pool.pages id j ∙ rw (other) refl
      ];
    }

    -- the page that the answer for it is was brought into memory
    pub cached :
        (page : Page)
        → page ≡ view codec files m page.header.page_id
        → Same codec files m (record m {
          buffer_pool = record m.buffer_pool {
            pages = Map.insert m.buffer_pool.pages page.header.page_id page;
            lru = touch m.buffer_pool.lru page.header.page_id;
          };
        })
    unfolding contains_key touch contains
    cached page same = record {
      valid = record {
        queued = λ j q. ground (
          arith,
          get-insert m.buffer_pool.pages page.header.page_id j page,
          contains-append (Set.remove m.buffer_pool.lru.queue page.header.page_id)
              (page.header.page_id ∷ []) j,
          contains-remove m.buffer_pool.lru.queue page.header.page_id j,
          v.queued j,
        );
        own_id = λ j p e.
            elim (get-insert_cases page.header.page_id j page p m.buffer_pool.pages e) [
              | inl (here, q) ↦ subst (λ r. r.header.page_id ≡ j) (sym q) here
              | inr (_, old) ↦ v.own_id j p old
            ];
        clean = λ j p e d.
            elim (get-insert_cases page.header.page_id j page p m.buffer_pool.pages e) [
              | inl (here, q) ↦
                  q
                  ∙ same
                  ∙ ap (view codec files m) here
                  ∙ clean_answer j (get m.buffer_pool.pages j) refl d
              | inr (_, old) ↦ v.clean j p old d
            ];
        readable = v.readable;
        stored_id = v.stored_id;
      };
      answers = λ j.
          page_or_file-insert codec files m.disk m.buffer_pool.pages page.header.page_id j page
          ∙ answer j;
    }
      where
        answer :
            (j : PageId)
            → (if page_id_beq page.header.page_id j
                then page
                else page_or_file codec files m.disk j (get m.buffer_pool.pages j))
              ≡ page_or_file codec files m.disk j (get m.buffer_pool.pages j)
        answer j = elim (Bool-cases (page_id_beq page.header.page_id j)) [
          | inl here ↦
              rw (here)
                (same ∙ ap (view codec files m) ((page_id_beq_iff page.header.page_id j).0 here))
          | inr other ↦ rw (other) refl
        ]

    -- pages lost their mark, of which the file has what the answer is
    pub unmarked :
        (dirty : List PageId)
        → ((j : PageId)
            → contains dirty j ≡ false
            → (contains m.buffer_pool.dirty_pages j ≡ false)
              ⊎ (on_disk codec files m.disk j ≡ view codec files m j))
        → Same codec files m
            (record m { buffer_pool = record m.buffer_pool { dirty_pages = dirty } })
    unmarked dirty settled = record {
      valid = record {
        queued = v.queued;
        own_id = v.own_id;
        clean = λ j p e d. elim (settled j d) [
          | inl c ↦ v.clean j p e c
          | inr q ↦ sym (q ∙ ap (page_or_file codec files m.disk j) e)
        ];
        readable = v.readable;
        stored_id = v.stored_id;
      };
      answers = λ j. refl;
    }
