-- ===== src/Storage/PagedTable/Insertion.antt =====
-- The rows of a table after an insertion.
use postgrust_sql.Prelude.{
  ℕ, suc, ◌+◌, ◌%◌, ◌^◌, ◌<◌, ◌≡◌, ◌≢◌, refl, sym, ap, ◌∙◌, inl, inr, Bool, true, false, List, [],
  ◌∷◌, ◌++◌, length, arith, if◌then◌else◌, subst, Bool-cases, OneMore, append-nil, nat_beq,
  nat_beq_iff,
}
use postgrust_sql.Prelude.Result.{Result, ok, err, ok_inj}
use postgrust_sql.Core.Error.{DbResult}
use postgrust_sql.Core.Row.{Row}
use postgrust_sql.Storage.Page
use postgrust_sql.Storage.Page.{
  Page, PageId, Bincode, Fault, failed, panicked, can_fit, insert_row, page_id_beq, page_id_beq_iff,
  new_header,
}
use postgrust_sql.Storage.Page.Layout.{IsValid as IsLaid, pushed, pushed-IsValid, new-IsValid}
use postgrust_sql.Storage.Page.Rows.{inserted}
use postgrust_sql.Storage.Page.Scan.{get_all_rows-pushed}
use postgrust_sql.Storage.PageManager.{PageManager, PageFiles, create_page}
use postgrust_sql.Storage.PageManager.View.{view, IsValid}
use postgrust_sql.Storage.PageManager.Tables.{create_page_effect}
use postgrust_sql.Storage.PagedTable.{
  PagedTable, page_id, try_pages, insert, after_pages, after_create, after_fresh, on_page,
}
use postgrust_sql.Storage.TablePage.{insert_only, with_result}
use postgrust_sql.Storage.PagedTable.Access.{
  content_from, content_from-same, on_page_known, page_id-other, page_id_self, nat_beq_ne,
  other_table,
}
use postgrust_sql.Storage.PagedTable.Attempts.{IsPushed, IsTried, try_pages-IsTried}
use postgrust_sql.Storage.PagedTable.Content.{content_from-IsPushed, content_from-snoc}

module _ {V : Type 0} (codec : Bincode V) (files : PageFiles) where
  -- A table whose pages are well laid out, in a valid state of the page manager, with its rows.
  pub record IsTable (m : PageManager files) (t : PagedTable) : Type 0 where
    pub valid : IsValid codec files m
    pub laid : (k : ℕ) → k < t.page_count → IsLaid (view codec files m (page_id t k))
    pub rows : List (Row V)
    pub read : content_from codec files m t.table_id 0 t.page_count ≡ ok rows

  -- The table holds one row more, and no other table changed.
  pub record IsInserted (row : Row V) (m : PageManager files) (t : PagedTable) (old : IsTable m t)
      (m' : PageManager files) (t' : PagedTable) : Type 0 where
    pub table : IsTable m' t'
    pub one_more : OneMore row old.rows table.rows
    pub same_id : t'.table_id ≡ t.table_id
    pub other_tables :
        (j : PageId) → j.table_id ≢ t.table_id → view codec files m' j ≡ view codec files m j

  module _ (m : PageManager files) (t : PagedTable) (old : IsTable m t) (row : Row V) (bs : List ℕ)
      (encoded : codec.serialize_row row ≡ ok bs)
      (decoded : codec.deserialize_row bs ≡ ok row) where
    IsLaid-IsPushed :
        (m' : PageManager files) (k i : ℕ)
        → k < t.page_count
        → IsPushed codec files t row bs encoded m m' k
        → i < t.page_count
        → IsLaid (view codec files m' (page_id t i))
    IsLaid-IsPushed m' k i k_below p i_below = elim (Bool-cases (nat_beq k i)) [
      | inl e ↦
          subst IsLaid
            (sym (
              p.answers (page_id t i)
              ∙ rw
                  ((page_id_beq_iff (page_id t k) (page_id t i)).1
                    (ap (page_id t) ((nat_beq_iff k i).0 e)))
                  refl))
            (pushed-IsValid (view codec files m (page_id t k)) bs (old.laid k k_below) p.fits)
      | inr e ↦
          subst IsLaid
            (sym (p.answers (page_id t i) ∙ rw (page_id-other t k i (nat_beq_ne k i e)) refl))
            (old.laid i i_below)
    ]

    pub IsInserted-hit :
        (m' : PageManager files) (k n : ℕ)
        → IsValid codec files m'
        → k < t.page_count
        → IsPushed codec files t row bs encoded m m' k
        → IsInserted row m t old m' (record t { row_count = n })
    IsInserted-hit m' k n valid below p =
        let (rows', e, one) =
          content_from-IsPushed codec files t row bs encoded decoded m m' k 0 t.page_count old.rows
            p (old.laid k below) (omega arith) (omega (arith, below)) old.read in
        record {
          table = record {
            valid = valid;
            laid = λ i i_below. IsLaid-IsPushed m' k i below p i_below;
            rows = rows';
            read = e;
          };
          one_more = one;
          same_id = refl;
          other_tables = λ j other. p.answers j ∙ rw (other_table t j k other) refl;
        }

    -- every answer but that for the new page is the old one, and the new page holds the row
    IsInserted-fresh :
        (m' : PageManager files) (n : ℕ)
        → IsValid codec files m'
        → t.page_count + 1 < 2 ^ 32
        → can_fit (Page.new codec (page_id t t.page_count)) (length bs) ≡ true
        → ((j : PageId)
            → view codec files m' j ≡ (
                if page_id_beq (page_id t t.page_count) j
                then pushed (Page.new codec (page_id t t.page_count)) bs
                else view codec files m j))
        → IsInserted row m t old m'
            (record t { page_count = (t.page_count + 1) % 2 ^ 32; row_count = n })
    unfolding Page.new Page.get_all_rows Page.rows_from
    IsInserted-fresh m' n valid room fits answers =
        let page : Page = Page.new codec (page_id t t.page_count) in
        let more : suc t.page_count ≡ (t.page_count + 1) % 2 ^ 32 = omega (arith, room) in
        let here : view codec files m' (page_id t t.page_count) ≡ pushed page bs =
          answers (page_id t t.page_count) ∙ rw (page_id_self t t.page_count) refl in
        let others : (k : ℕ)
            → k < t.page_count
            → view codec files m' (page_id t k) ≡ view codec files m (page_id t k) =
          λ k below.
            answers (page_id t k)
            ∙ rw (page_id-other t t.page_count k (λ q. omega (arith, q, below))) refl in
        let last : Page.get_all_rows codec (view codec files m' (page_id t (0 + t.page_count)))
            ≡ ok (row ∷ []) =
          ap (λ i. Page.get_all_rows codec (view codec files m' (page_id t i))) (omega arith)
          ∙ ap (Page.get_all_rows codec) here
          ∙ get_all_rows-pushed codec page row bs (new-IsValid codec (page_id t t.page_count))
              encoded fits decoded in
        record {
          table = record {
            valid = valid;
            laid = λ k below. elim (Bool-cases (nat_beq k t.page_count)) [
              | inl e ↦
                  subst (λ i. IsLaid (view codec files m' (page_id t i)))
                    (sym ((nat_beq_iff k t.page_count).0 e))
                    (subst IsLaid (sym here)
                      (pushed-IsValid page bs (new-IsValid codec (page_id t t.page_count)) fits))
              | inr e ↦
                  let older : k < t.page_count =
                    omega (arith, below, more, nat_beq_ne k t.page_count e) in
                  subst IsLaid (sym (others k older)) (old.laid k older)
            ];
            rows = old.rows ++ row ∷ [];
            read =
                ap (content_from codec files m' t.table_id 0) (sym more)
                ∙ content_from-snoc codec files m' t.table_id 0 t.page_count old.rows (row ∷ [])
                    (content_from-same codec files m m' t.table_id 0 t.page_count
                        (λ k above below. others k (omega (arith, below)))
                      ∙ old.read)
                    last;
          };
          one_more = record {
            front = old.rows;
            back = [];
            old = sym (append-nil old.rows);
            new = refl;
          };
          same_id = refl;
          other_tables = λ j other. answers j ∙ rw (other_table t j t.page_count other) refl;
        }

    -- the insertion returned without an error
    abbrev pub IsDone : Result Fault (Unit {0}) × (PageManager files × PagedTable) → Type 0
    IsDone r = (r.0 ≡ ok tt) × IsInserted row m t old r.1.0 r.1.1

    insert_only-fits :
        (p : Page)
        → IsLaid p
        → can_fit p (length bs) ≡ true
        → insert_only codec row p ≡ (ok (length p.slots), pushed p bs)
    unfolding insert_only
    insert_only-fits p v fits =
        ap (with_result p (λ slot. slot)) (inserted codec p row bs encoded v fits)

    after_create-IsDone :
        (m' : PageManager files)
        → IsValid codec files m'
        → ((j : PageId) → view codec files m' j ≡ view codec files m j)
        → t.page_count + 1 < 2 ^ 32
        → can_fit (Page.new codec (page_id t t.page_count)) (length bs) ≡ true
        → IsDone
            (after_create codec files t row (create_page codec files m' t.table_id t.page_count))
    unfolding after_create after_fresh Page.new new_header
    after_create-IsDone m' valid same room fits =
        let (created, valid1, answers) =
          create_page_effect codec files m' (page_id t t.page_count) valid in
        by_page (create_page codec files m' t.table_id t.page_count) created valid1 answers
      where
        id : PageId
        id = page_id t t.page_count

        page : Page
        page = Page.new codec id

        by_fresh :
            (slot : ℕ) (g : Result Fault ℕ × PageManager files)
            → g.0 ≡ ok slot
            → IsValid codec files g.1
            → ((j : PageId)
                → view codec files g.1 j
                  ≡ (if page_id_beq id j then pushed page bs else view codec files m j))
            → IsDone (after_fresh codec files t g)
        by_fresh slot (err e, m3) stored valid3 answers = absurd (ground (arith, stored))
        by_fresh slot (ok s, m3) stored valid3 answers =
            (refl, IsInserted-fresh m3 ((t.row_count + 1) % 2 ^ 64) valid3 room fits answers)

        by_page :
            (g : DbResult PageId × PageManager files)
            → g.0 ≡ ok id
            → IsValid codec files g.1
            → ((j : PageId)
                → view codec files g.1 j
                  ≡ (if page_id_beq id j then Page.new codec id else view codec files m' j))
            → IsDone (after_create codec files t row g)
        by_page (err e, m2) created valid2 answers = absurd (ground (arith, created))
        by_page (ok j, m2) created valid2 answers =
            let here : view codec files m2 id ≡ page =
              answers id ∙ rw (page_id_self t t.page_count) refl in
            let (stored, valid3, answers3) =
              on_page_known codec files (insert_only codec row) m2 id (ok (length page.slots))
                (pushed page bs) valid2
                (ap (insert_only codec row) here
                  ∙ insert_only-fits page (new-IsValid codec id) fits)
                refl in
            subst (λ i. IsDone (after_create codec files t row (ok i, m2))) (sym (ok_inj created))
              (by_fresh (length page.slots) (on_page codec files (insert_only codec row) m2 id)
                stored valid3
                (λ i. answers3 i ∙ elim (Bool-cases (page_id_beq id i)) [
                  | inl e ↦ rw (e) refl
                  | inr e ↦ rw (e) (answers i ∙ rw (e) (same i))
                ]))

    -- An insertion of a row that can be encoded, whose encoding decodes to it and fits on an empty
    -- page, into a valid table that has not all of its 2^32 pages: it succeeds, the table stays valid with the row once more among
    -- its rows, and the answer for every page of another table is what it was.
    pub insert_effect :
        t.page_count + 1 < 2 ^ 32
        → can_fit (Page.new codec (page_id t t.page_count)) (length bs) ≡ true
        → IsDone (insert codec files (m, t) row)
    unfolding insert after_pages
    insert_effect room fits = by_tried (try_pages codec files t row 0 t.page_count m) (
        try_pages-IsTried codec files t row bs encoded 0 t.page_count m old.valid
          (λ k below. old.laid k (omega (arith, below))))
      where
        by_tried :
            (g : Result Fault Bool × PageManager files)
            → IsTried codec files t row bs encoded m 0 t.page_count g
            → IsDone (after_pages codec files t row g)
        by_tried (ok false, m') (valid, inl (none_fits, same)) =
            after_create-IsDone m' valid same room fits
        by_tried (ok true, m') (valid, inr (k, found, above, below, pushed_at)) = (
          refl,
          IsInserted-hit m' k ((t.row_count + 1) % 2 ^ 64) valid (omega (arith, below)) pushed_at,
        )
        by_tried (ok true, m') (valid, inl (none_fits, same)) = absurd (ground (arith, none_fits))
        by_tried (ok false, m') (valid, inr (k, found, _, _, _)) = absurd (ground (arith, found))
        by_tried (err e, m') (valid, inl (none_fits, same)) = absurd (ground (arith, none_fits))
        by_tried (err e, m') (valid, inr (k, found, _, _, _)) = absurd (ground (arith, found))
