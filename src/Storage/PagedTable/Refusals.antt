-- ===== src/Storage/PagedTable/Refusals.antt =====
-- Which insertions into a table fail.
use postgrust_sql.Prelude.{
  ℕ, String, zero, suc, ◌+◌, ◌%◌, ◌^◌, ◌<◌, ◌≡◌, ◌≢◌, refl, sym, ap, ◌∙◌, inl, inr, Bool, true,
  false, List, length, arith, subst, Bool-cases,
}
use postgrust_sql.Prelude.Result.{Result, ok, err, ok_inj}
use postgrust_sql.Core.Error.{DbResult, io, binary_serialization}
use postgrust_sql.Core.Row.{Row}
use postgrust_sql.Storage.Page
use postgrust_sql.Storage.Page.{
  Page, PageId, Bincode, Decodes, Fault, failed, panicked, can_fit, insert_row, page_id_beq,
  new_header,
}
use postgrust_sql.Storage.Page.Layout.{IsValid as IsLaid, new-IsValid}
use postgrust_sql.Storage.Page.Rows.{insert_row_full}
use postgrust_sql.Storage.PageManager.{PageManager, PageFiles, create_page}
use postgrust_sql.Storage.PageManager.View.{view, IsValid, page_id-view}
use postgrust_sql.Storage.PageManager.Tables.{create_page_effect}
use postgrust_sql.Storage.PagedTable.{
  PagedTable, page_id, try_pages, until_inserted, insert, after_pages, after_create, after_fresh,
  on_page,
}
use postgrust_sql.Storage.TablePage.{if_fits, try_insert, insert_only, with_result}
use postgrust_sql.Storage.PagedTable.Access.{on_page_known, page_id_self}
use postgrust_sql.Storage.PagedTable.Attempts.{IsTried, try_pages-IsTried}
use postgrust_sql.Storage.PagedTable.Insertion.{IsTable, IsInserted, IsInserted-hit, insert_effect}

module _ {V : Type 0} (codec : Bincode V) (files : PageFiles) (t : PagedTable) (row : Row V) where
  -- a new page that refuses the row
  after_create_refused :
      (m : PageManager files) (d : Fault)
      → IsValid codec files m
      → insert_only codec row (Page.new codec (page_id t t.page_count))
        ≡ (err d, Page.new codec (page_id t t.page_count))
      → (after_create codec files t row (create_page codec files m t.table_id t.page_count)).0
        ≢ ok tt
  unfolding after_create after_fresh Page.new new_header
  after_create_refused m d v refused =
      let (created, valid, answers) = create_page_effect codec files m (page_id t t.page_count) v in
      by_page (create_page codec files m t.table_id t.page_count) created valid
        (answers (page_id t t.page_count) ∙ rw (page_id_self t t.page_count) refl)
    where
      id : PageId
      id = page_id t t.page_count

      by_fresh :
          (g : Result Fault ℕ × PageManager files)
          → g.0 ≡ err d
          → (after_fresh codec files t g).0 ≢ ok tt
      by_fresh (ok s, m') e = absurd (ground (arith, e))
      by_fresh (err e', m') e = λ h. ground (arith, h)

      by_page :
          (g : DbResult PageId × PageManager files)
          → g.0 ≡ ok id
          → IsValid codec files g.1
          → view codec files g.1 id ≡ Page.new codec id
          → (after_create codec files t row g).0 ≢ ok tt
      by_page (err e, m') created valid here = absurd (ground (arith, created))
      by_page (ok j, m') created valid here =
          subst (λ i. (after_create codec files t row (ok i, m')).0 ≢ ok tt) (sym (ok_inj created))
            (by_fresh (on_page codec files (insert_only codec row) m' id)
              (on_page_known codec files (insert_only codec row) m' id (err d) (Page.new codec id)
                valid (ap (insert_only codec row) here ∙ refused) refl).0)

  insert_only_unencoded :
      (p : Page) (e : String)
      → codec.serialize_row row ≡ err e
      → insert_only codec row p ≡ (err (failed (binary_serialization e)), p)
  unfolding insert_only insert_row
  insert_only_unencoded p e bad = rw (bad) refl

  insert_only_full :
      (p : Page) (bs : List ℕ)
      → IsLaid p
      → codec.serialize_row row ≡ ok bs
      → can_fit p (length bs) ≡ false
      → insert_only codec row p ≡ (err (failed (io "Page is full")), p)
  unfolding insert_only
  insert_only_full p bs v encoded full =
      ap (with_result p (λ slot. slot)) (insert_row_full codec p row bs encoded v full)

  -- a row that cannot be encoded
  insert_unencoded :
      (m : PageManager files) (e : String)
      → IsValid codec files m
      → codec.serialize_row row ≡ err e
      → (insert codec files (m, t) row).0 ≢ ok tt
  unfolding insert after_pages try_pages try_insert
  insert_unencoded m e v bad = by_count t.page_count refl
    where
      by_first :
          (g : Result Fault Bool × PageManager files)
          (rest : PageManager files → Result Fault Bool × PageManager files)
          → g.0 ≡ err panicked
          → (after_pages codec files t row (until_inserted codec files g rest)).0 ≢ ok tt
      by_first (ok b, m') rest h = absurd (ground (arith, h))
      by_first (err d, m') rest h = λ q. ground (arith, q)

      by_count :
          (n : ℕ)
          → t.page_count ≡ n
          → (after_pages codec files t row (try_pages codec files t row 0 n m)).0 ≢ ok tt
      by_count zero h =
          after_create_refused m (failed (binary_serialization e)) v
            (insert_only_unencoded (Page.new codec (page_id t t.page_count)) e bad)
      by_count (suc n) h =
          by_first (on_page codec files (try_insert codec row) m (page_id t 0))
            (try_pages codec files t row 1 n)
            (on_page_known codec files (try_insert codec row) m (page_id t 0) (err panicked)
              (view codec files m (page_id t 0)) v
              (ap (if_fits codec row (view codec files m (page_id t 0))) bad)
              (page_id-view codec files m (page_id t 0) v)).0

  -- In a valid table that has not all of its 2^32 pages, a row whose encoding, if it has one, decodes
  -- to it is inserted without an error only if it is added.
  pub insert_ok :
      (m : PageManager files) (old : IsTable codec files m t)
      → t.page_count + 1 < 2 ^ 32
      → Decodes codec row
      → (insert codec files (m, t) row).0 ≡ ok tt
      → IsInserted codec files row m t old
          (insert codec files (m, t) row).1.0
          (insert codec files (m, t) row).1.1
  unfolding insert after_pages
  insert_ok m old room decodes h = by_bytes (codec.serialize_row row) refl
    where
      by_tried :
          (bs : List ℕ) (encoded : codec.serialize_row row ≡ ok bs)
          → can_fit (Page.new codec (page_id t t.page_count)) (length bs) ≡ false
          → (g : Result Fault Bool × PageManager files)
          → IsTried codec files t row bs encoded m 0 t.page_count g
          → (after_pages codec files t row g).0 ≡ ok tt
          → IsInserted codec files row m t old
              (after_pages codec files t row g).1.0
              (after_pages codec files t row g).1.1
      by_tried bs encoded full (ok false, m') (valid, inl (none_fits, same)) h = absurd (
          after_create_refused m' (failed (io "Page is full")) valid
            (insert_only_full (Page.new codec (page_id t t.page_count)) bs
              (new-IsValid codec (page_id t t.page_count)) encoded full)
            h)
      by_tried bs encoded full (ok true, m') (valid, inr (k, found, above, below, pushed_at)) h =
          IsInserted-hit codec files m t old row bs encoded (decodes bs encoded) m' k
            ((t.row_count + 1) % 2 ^ 64) valid (omega (arith, below)) pushed_at
      by_tried bs encoded full (ok true, m') (valid, inl (none_fits, same)) h =
          absurd (ground (arith, none_fits))
      by_tried bs encoded full (ok false, m') (valid, inr (k, found, _, _, _)) h =
          absurd (ground (arith, found))
      by_tried bs encoded full (err e, m') tried h = absurd (ground (arith, h))

      by_bytes :
          (o : Result String (List ℕ))
          → codec.serialize_row row ≡ o
          → IsInserted codec files row m t old
              (insert codec files (m, t) row).1.0
              (insert codec files (m, t) row).1.1
      by_bytes (err e) bad = absurd (insert_unencoded m e old.valid bad h)
      by_bytes (ok bs) encoded =
          elim (Bool-cases (can_fit (Page.new codec (page_id t t.page_count)) (length bs))) [
            | inl fits ↦
                (insert_effect codec files m t old row bs encoded (decodes bs encoded) room fits).1
            | inr full ↦
                by_tried bs encoded full (try_pages codec files t row 0 t.page_count m)
                  (try_pages-IsTried codec files t row bs encoded 0 t.page_count m old.valid
                    (λ k below. old.laid k (omega (arith, below))))
                  h
          ]
