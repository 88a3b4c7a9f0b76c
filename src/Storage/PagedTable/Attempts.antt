-- ===== src/Storage/PagedTable/Attempts.antt =====
-- The search for a page with room, and the first row of a new page.
use postgrust_sql.Prelude.{
  ℕ, zero, suc, ◌+◌, ◌≤◌, ◌<◌, ◌≡◌, refl, sym, ap, ◌∙◌, ◌⊎◌, inl, inr, Bool, true, false, List,
  length, arith, if◌then◌else◌, subst,
}
use postgrust_sql.Prelude.Result.{Result, ok, err}
use postgrust_sql.Core.Row.{Row}
use postgrust_sql.Storage.Page.{Page, PageId, Bincode, Fault, can_fit, page_id_beq}
use postgrust_sql.Storage.Page.Layout.{IsValid as IsLaid, pushed}
use postgrust_sql.Storage.Page.Rows.{inserted}
use postgrust_sql.Storage.PageManager.{PageManager, PageFiles}
use postgrust_sql.Storage.PageManager.View.{view, IsValid, page_id-view}
use postgrust_sql.Storage.PagedTable.{PagedTable, page_id, on_page, until_inserted, try_pages}
use postgrust_sql.Storage.TablePage.{if_fits, try_insert, with_result}
use postgrust_sql.Storage.PagedTable.Access.{on_page_known, view_kept}

module _ {V : Type 0} (codec : Bincode V) (files : PageFiles) (t : PagedTable) (row : Row V)
    (bs : List ℕ) (encoded : codec.serialize_row row ≡ ok bs) where
  try_insert-fits :
      (p : Page)
      → IsLaid p
      → can_fit p (length bs) ≡ true
      → try_insert codec row p ≡ (ok true, pushed p bs)
  unfolding try_insert
  try_insert-fits p v fits =
      ap (if_fits codec row p) encoded
      ∙ rw (fits) (ap (with_result p (λ _. true)) (inserted codec p row bs encoded v fits))

  try_insert-full :
      (p : Page) → can_fit p (length bs) ≡ false → try_insert codec row p ≡ (ok false, p)
  unfolding try_insert
  try_insert-full p full = ap (if_fits codec row p) encoded ∙ rw (full) refl

  -- The row lies on page `k` of the table, behind the rows that were there, and no other page
  -- changed.
  pub record IsPushed (m m' : PageManager files) (k : ℕ) : Type 0 where
    pub fits : can_fit (view codec files m (page_id t k)) (length bs) ≡ true
    pub answers :
        (j : PageId)
        → view codec files m' j ≡ (
            if page_id_beq (page_id t k) j
            then pushed (view codec files m (page_id t k)) bs
            else view codec files m j)

  IsPushed-same :
      (m m' m'' : PageManager files) (k : ℕ)
      → ((j : PageId) → view codec files m' j ≡ view codec files m j)
      → IsPushed m' m'' k
      → IsPushed m m'' k
  IsPushed-same m m' m'' k same p = record {
    fits = subst (λ q. can_fit q (length bs) ≡ true) (same (page_id t k)) p.fits;
    answers = λ j. p.answers j ∙ rw (same (page_id t k), same j) refl;
  }

  -- what the search through `left` pages from number `n` on comes to
  abbrev pub IsTried : PageManager files → ℕ → ℕ → Result Fault Bool × PageManager files → Type 0
  IsTried m n left r =
      IsValid codec files r.1
      × (((r.0 ≡ ok false) × ((j : PageId) → view codec files r.1 j ≡ view codec files m j))
          ⊎ ((k : ℕ) × (r.0 ≡ ok true) × (n ≤ k) × (k < n + left) × IsPushed m r.1 k))

  pub try_pages-IsTried :
      (n left : ℕ) (m : PageManager files)
      → IsValid codec files m
      → ((k : ℕ) → k < n + left → IsLaid (view codec files m (page_id t k)))
      → IsTried m n left (try_pages codec files t row n left m)
  unfolding try_pages
  try_pages-IsTried n zero m v laid = (v, inl (refl, λ j. refl))
  try_pages-IsTried n (suc left) m v laid =
      by_room (can_fit page (length bs)) refl (try_pages-IsTried (suc n) left here.1)
    where
      page : Page
      page = view codec files m (page_id t n)

      here : Result Fault Bool × PageManager files
      here = on_page codec files (try_insert codec row) m (page_id t n)

      later : PageManager files → Result Fault Bool × PageManager files
      later = try_pages codec files t row (suc n) left

      stored :
          (g : Result Fault Bool × PageManager files)
          → g.0 ≡ ok true
          → IsValid codec files g.1
          → IsPushed m g.1 n
          → IsTried m n (suc left) (until_inserted codec files g later)
      stored (ok true, m') e valid pushed_here =
          (valid, inr (n, refl, omega arith, omega arith, pushed_here))
      stored (ok false, m') e valid pushed_here = absurd (ground (arith, e))
      stored (err d, m') e valid pushed_here = absurd (ground (arith, e))

      not_stored :
          (g : Result Fault Bool × PageManager files)
          → g.0 ≡ ok false
          → IsValid codec files g.1
          → ((j : PageId) → view codec files g.1 j ≡ view codec files m j)
          → IsTried g.1 (suc n) left (later g.1)
          → IsTried m n (suc left) (until_inserted codec files g later)
      not_stored (ok false, m') e valid same (done, inl (none_fits, same')) =
          (done, inl (none_fits, λ j. same' j ∙ same j))
      not_stored (ok false, m') e valid same (done, inr (k, found, above, below, pushed_at)) = (
        done,
        inr (
          k,
          found,
          omega (arith, above),
          omega (arith, below),
          IsPushed-same m m' (later m').1 k same pushed_at,
        ),
      )
      not_stored (ok true, m') e valid same tried = absurd (ground (arith, e))
      not_stored (err d, m') e valid same tried = absurd (ground (arith, e))

      by_room :
          (b : Bool)
          → can_fit page (length bs) ≡ b
          → (IsValid codec files here.1
              → ((k : ℕ) → k < suc n + left → IsLaid (view codec files here.1 (page_id t k)))
              → IsTried here.1 (suc n) left (later here.1))
          → IsTried m n (suc left) (until_inserted codec files here later)
      by_room true e more =
          let (result, valid, answers) =
            on_page_known codec files (try_insert codec row) m (page_id t n) (ok true)
              (pushed page bs) v (try_insert-fits page (laid n (omega arith)) e)
              (page_id-view codec files m (page_id t n) v) in
          stored here result valid (record { fits = e; answers = answers })
      by_room false e more =
          let (result, valid, answers) =
            on_page_known codec files (try_insert codec row) m (page_id t n) (ok false) page v
              (try_insert-full page e) (page_id-view codec files m (page_id t n) v) in
          let same : (j : PageId) → view codec files here.1 j ≡ view codec files m j =
            λ j. answers j ∙ view_kept codec files m (page_id t n) j in
          not_stored here result valid same (
            more valid
              (λ k below. subst IsLaid (sym (same (page_id t k))) (laid k (omega (arith, below)))))
