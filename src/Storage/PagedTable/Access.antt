-- ===== src/Storage/PagedTable/Access.antt =====
-- One page of a table through the page manager, and the rows of all pages.
use postgrust_sql.Prelude.{
  ℕ, zero, suc, ◌+◌, ◌≤◌, ◌<◌, ◌≢◌, nat_beq, ◌≡◌, refl, sym, ap, ◌∙◌, true, false, List, [], ◌++◌,
  arith, if◌then◌else◌, Bool-cases, inl, inr,
}
use postgrust_sql.Prelude.Result.{Result, ok, err, ◌>>=◌, ok_inj}
use postgrust_sql.Core.Error.{DbResult}
use postgrust_sql.Core.Row.{Row}
use postgrust_sql.Storage.Page
use postgrust_sql.Storage.Page.{
  Page, PageId, Bincode, Fault, failed, panicked, page_id_beq, page_id_beq_iff,
}
use postgrust_sql.Storage.PageManager.{PageManager, PageFiles, get_page}
use postgrust_sql.Storage.PageManager.View.{view, IsValid}
use postgrust_sql.Storage.PageManager.Reads.{get_page_effect}
use postgrust_sql.Storage.PageManager.Updates.{with_page_mut_effect}
use postgrust_sql.Storage.PagedTable.{
  PagedTable, page_id, page_at, on_page, after_get, rows_of_pages, get_all_rows,
}
use postgrust_sql.Storage.TablePage.{caught, released}

-- different pages of a table
pub page_id-other :
    (t : PagedTable) (k n : ℕ) → k ≢ n → page_id_beq (page_id t k) (page_id t n) ≡ false
page_id-other t k n h = elim (Bool-cases (page_id_beq (page_id t k) (page_id t n))) [
  | inl e ↦
      absurd
        (h (ap (λ (i : PageId). i.page_number) ((page_id_beq_iff (page_id t k) (page_id t n)).0 e)))
  | inr e ↦ e
]

pub nat_beq_ne : (k n : ℕ) → nat_beq k n ≡ false → k ≢ n
nat_beq_ne k n h e = ground (arith, h, e)

pub nat_gap : (k n i : ℕ) → k ≡ n → suc n ≤ i → k ≢ i
nat_gap k n i e h q = omega (arith, e, h, q)

pub page_id_self : (t : PagedTable) (k : ℕ) → page_id_beq (page_id t k) (page_id t k) ≡ true
page_id_self t k = (page_id_beq_iff (page_id t k) (page_id t k)).1 refl

pub other_table :
    (t : PagedTable) (j : PageId) (k : ℕ)
    → j.table_id ≢ t.table_id
    → page_id_beq (page_id t k) j ≡ false
other_table t j k h = elim (Bool-cases (page_id_beq (page_id t k) j)) [
  | inl e ↦
      absurd (h (sym (ap (λ (i : PageId). i.table_id) ((page_id_beq_iff (page_id t k) j).0 e))))
  | inr e ↦ e
]

released-caught : {R : Type 0} (o : Result Fault R × Page) → released (caught o).0 ≡ o.0
released-caught (ok r, p) = refl
released-caught (err (failed e), p) = refl
released-caught (err panicked, p) = refl

page-caught : {R : Type 0} (o : Result Fault R × Page) → (caught o).1 ≡ o.1
page-caught (ok r, p) = refl
page-caught (err (failed e), p) = refl
page-caught (err panicked, p) = refl

module _ {V : Type 0} (codec : Bincode V) (files : PageFiles) where
  -- a closure on a page of a valid state gets the answer for the page
  pub on_page_effect :
      {R : Type 0} (f : Page → Result Fault R × Page) (m : PageManager files) (id : PageId)
      → IsValid codec files m
      → (f (view codec files m id)).1.header.page_id ≡ id
      → ((on_page codec files f m id).0 ≡ (f (view codec files m id)).0)
        × IsValid codec files (on_page codec files f m id).1
        × ((j : PageId)
            → view codec files (on_page codec files f m id).1 j
              ≡ (if page_id_beq id j then (f (view codec files m id)).1 else view codec files m j))
  unfolding on_page
  on_page_effect f m id v keeps =
      let page = view codec files m id in
      let (result, valid, answers) =
        with_page_mut_effect codec files m id (λ p. caught (f p)) v
          (ap (λ (p : Page). p.header.page_id) (page-caught (f page)) ∙ keeps) in
      (
        ap released result ∙ released-caught (f page),
        valid,
        λ j.
            answers j
            ∙ ap (λ q. if page_id_beq id j then q else view codec files m j) (page-caught (f page)),
      )

  -- the same, where the outcome of the closure is known
  pub on_page_known :
      {R : Type 0} (f : Page → Result Fault R × Page) (m : PageManager files) (id : PageId)
      (r : Result Fault R) (p : Page)
      → IsValid codec files m
      → f (view codec files m id) ≡ (r, p)
      → p.header.page_id ≡ id
      → ((on_page codec files f m id).0 ≡ r)
        × IsValid codec files (on_page codec files f m id).1
        × ((j : PageId)
            → view codec files (on_page codec files f m id).1 j
              ≡ (if page_id_beq id j then p else view codec files m j))
  on_page_known f m id r p v e keeps =
      let left : (f (view codec files m id)).1 ≡ p = ap (λ o. o.1) e in
      let (result, valid, answers) =
        on_page_effect f m id v (ap (λ (q : Page). q.header.page_id) left ∙ keeps) in
      (
        result ∙ ap (λ o. o.0) e,
        valid,
        λ j. answers j ∙ ap (λ q. if page_id_beq id j then q else view codec files m j) left,
      )

  -- a page that is left as it was
  pub view_kept :
      (m : PageManager files) (id j : PageId)
      → (if page_id_beq id j then view codec files m id else view codec files m j)
        ≡ view codec files m j
  view_kept m id j = elim (Bool-cases (page_id_beq id j)) [
    | inl e ↦ rw (e) (ap (view codec files m) ((page_id_beq_iff id j).0 e))
    | inr e ↦ rw (e) refl
  ]

  -- the rows of `left` pages of the table from number `n` on, by the answers for the pages
  abbrev pub content_from : PageManager files → ℕ → ℕ → ℕ → Result Fault (List (Row V))
  content_from m t n zero = ok []
  content_from m t n (suc left) = do
    rows ← Page.get_all_rows codec (view codec files m (page_at t n))
    more ← content_from m t (suc n) left
    ok (rows ++ more)

  pub content_from-same :
      (m m' : PageManager files) (t : ℕ) (n left : ℕ)
      → ((k : ℕ)
          → n ≤ k
          → k < n + left
          → view codec files m' (page_at t k) ≡ view codec files m (page_at t k))
      → content_from m' t n left ≡ content_from m t n left
  content_from-same m m' t n zero same = refl
  content_from-same m m' t n (suc left) same =
      rw
        (
          same n (omega arith) (omega arith),
          content_from-same m m' t (suc n) left
              (λ k above below. same k (omega (arith, above)) (omega (arith, below))),
        )
        refl

  IsScan :
      PageManager files
      → Result Fault (List (Row V))
      → Result Fault (List (Row V)) × PageManager files
      → Type 0
  IsScan m rows r =
      (r.0 ≡ rows)
      × IsValid codec files r.1
      × ((j : PageId) → view codec files r.1 j ≡ view codec files m j)

  rows_of_pages-IsScan :
      (t : PagedTable) (n left : ℕ) (m : PageManager files)
      → IsValid codec files m
      → IsScan m (content_from m t.table_id n left) (rows_of_pages codec files t n left m)
  unfolding rows_of_pages IsScan
  rows_of_pages-IsScan t n zero m v = (refl, v, λ j. refl)
  rows_of_pages-IsScan t n (suc left) m v =
      let (result, valid, same, _) = get_page_effect codec files m v (page_id t n) in
      by_page (get_page codec files m (page_id t n)) result valid same
        (λ m'. rows_of_pages-IsScan t (suc n) left m')
    where
      by_page :
          (g : DbResult Page × PageManager files)
          → g.0 ≡ ok (view codec files m (page_id t n))
          → IsValid codec files g.1
          → ((j : PageId) → view codec files g.1 j ≡ view codec files m j)
          → ((m' : PageManager files)
              → IsValid codec files m'
              → IsScan m'
                  (content_from m' t.table_id (suc n) left)
                  (rows_of_pages codec files t (suc n) left m'))
          → IsScan m
              (content_from m t.table_id n (suc left))
              (after_get codec files g (rows_of_pages codec files t (suc n) left))
      by_page (err e, m') result valid same more = absurd (ground (arith, result))
      by_page (ok page, m') result valid same more =
          let (rest, valid', same') = more m' valid in
          (
            rw
                (
                  rest,
                  content_from-same m m' t.table_id (suc n) left
                      (λ k above below. same (page_id t k)),
                  ok_inj result,
                )
                refl,
            valid',
            λ j. same' j ∙ same j,
          )

  -- Reading a table in a valid state gives the rows of the answers for its pages, page by page, and
  -- leaves a valid state with the same answer for every page.
  pub get_all_rows_effect :
      (m : PageManager files) (t : PagedTable)
      → IsValid codec files m
      → ((get_all_rows codec files (m, t)).0 ≡ content_from m t.table_id 0 t.page_count)
        × IsValid codec files (get_all_rows codec files (m, t)).1.0
        × ((get_all_rows codec files (m, t)).1.1 ≡ t)
        × ((j : PageId)
            → view codec files (get_all_rows codec files (m, t)).1.0 j ≡ view codec files m j)
  unfolding get_all_rows IsScan
  get_all_rows_effect m t v =
      let (rows, valid, same) = rows_of_pages-IsScan t 0 t.page_count m v in
      (rows, valid, refl, same)
