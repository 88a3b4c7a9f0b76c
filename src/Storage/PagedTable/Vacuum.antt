-- ===== src/Storage/PagedTable/Vacuum.antt =====
-- VACUUM on a table.
use postgrust_sql.Prelude.{
  ℕ, zero, suc, ◌+◌, ◌≤◌, ◌<◌, ◌≡◌, ◌≢◌, refl, sym, ap, ◌∙◌, inl, inr, false, List, ◌++◌, length,
  arith, if◌then◌else◌, subst, Bool-cases, length-append, retain-append, not, nat_beq, nat_beq_iff,
}
use postgrust_sql.Prelude.Result.{Result, ok, err, ◌>>=◌, ok_inj, bind_ok}
use postgrust_sql.Core.Row.{Row, is_dead}
use postgrust_sql.Storage.Page
use postgrust_sql.Storage.Page.{
  Page, PageHeader, PageId, Bincode, Fault, page_id_beq, page_id_beq_iff,
}
use postgrust_sql.Storage.Page.Layout.{IsValid as IsLaid}
use postgrust_sql.Storage.PageManager.{PageManager, PageFiles}
use postgrust_sql.Storage.PageManager.View.{view, IsValid, page_id-view}
use postgrust_sql.Storage.PagedTable.{PagedTable, page_id, on_page, then_pages, each_page, vacuum}
use postgrust_sql.Storage.TablePage.{vacuum_page}
use postgrust_sql.Storage.PagedTable.Access.{
  content_from, content_from-same, on_page_known, page_id-other, page_id_self, nat_beq_ne,
  other_table,
}
use postgrust_sql.Storage.PagedTable.Insertion.{IsTable}
use postgrust_sql.Storage.PagedTable.Sweep.{alive, vacuum_page_effect}

module _ {V : Type 0} (codec : Bincode V) (files : PageFiles) (oldest : ℕ) (t : PagedTable) where
  -- What VACUUM leaves of `left` pages from number `n` on that had these rows.
  pub record IsVacuumed (m : PageManager files) (n left : ℕ) (rows : List (Row V))
      (r : Result Fault ℕ × PageManager files) : Type 0 where
    pub removed : ℕ
    pub result : r.0 ≡ ok removed
    pub counted : removed + length (alive codec oldest rows) ≡ length rows
    pub valid : IsValid codec files r.1
    pub read : content_from codec files r.1 t.table_id n left ≡ ok (alive codec oldest rows)
    pub laid : (k : ℕ) → n ≤ k → k < n + left → IsLaid (view codec files r.1 (page_id t k))
    pub others :
        (j : PageId)
        → ((k : ℕ) → n ≤ k → k < n + left → page_id_beq (page_id t k) j ≡ false)
        → view codec files r.1 j ≡ view codec files m j

  length-alive :
      (xs ys : List (Row V))
      → length (alive codec oldest (xs ++ ys))
        ≡ length (alive codec oldest xs) + length (alive codec oldest ys)
  length-alive xs ys =
      ap length (retain-append (λ r. not (is_dead r oldest)) xs ys)
      ∙ length-append (alive codec oldest xs) (alive codec oldest ys)

  each_page-IsVacuumed :
      (n left : ℕ) (m : PageManager files) (rows : List (Row V))
      → IsValid codec files m
      → ((k : ℕ) → n ≤ k → k < n + left → IsLaid (view codec files m (page_id t k)))
      → content_from codec files m t.table_id n left ≡ ok rows
      → IsVacuumed m n left rows (each_page codec files 0 ◌+◌ (vacuum_page codec oldest) t n left m)
  unfolding each_page
  each_page-IsVacuumed n zero m rows v laid e = record {
    removed = 0;
    result = refl;
    counted = ap (λ l. 0 + length (alive codec oldest l)) (sym (ok_inj e)) ∙ ap length (ok_inj e);
    valid = v;
    read = ap (λ l. ok (alive codec oldest l)) (ok_inj e);
    laid = laid;
    others = λ j apart. refl;
  }
  each_page-IsVacuumed n (suc left) m rows v laid e =
      let (rows0, e0, e') =
        bind_ok (Page.get_all_rows codec (view codec files m (page_id t n))) _ rows e in
      let (more, e1, e2) = bind_ok (content_from codec files m t.table_id (suc n) left) _ rows e' in
      let page = view codec files m (page_id t n) in
      let (c, p', run, counted, valid', read', header) =
        vacuum_page_effect codec oldest page rows0 (laid n (omega arith) (omega arith)) e0 in
      let here = on_page codec files (vacuum_page codec oldest) m (page_id t n) in
      let (result, valid1, answers) =
        on_page_known codec files (vacuum_page codec oldest) m (page_id t n) (ok c) p' v run (
          ap (λ (h : PageHeader). h.page_id) header ∙ page_id-view codec files m (page_id t n) v) in
      let later : (k : ℕ)
          → suc n ≤ k
          → view codec files here.1 (page_id t k) ≡ view codec files m (page_id t k) =
        λ k above.
          answers (page_id t k) ∙ rw (page_id-other t n k (λ q. omega (arith, q, above))) refl in
      let rest =
        each_page-IsVacuumed (suc n) left here.1 more valid1
          (λ k above below.
            subst IsLaid (sym (later k above))
              (laid k (omega (arith, above)) (omega (arith, below))))
          (content_from-same codec files m here.1 t.table_id (suc n) left
              (λ k above below. later k above)
            ∙ e1) in
      subst
        (λ l. IsVacuumed m n (suc left) l (
          then_pages codec files ◌+◌ here
            (each_page codec files 0 ◌+◌ (vacuum_page codec oldest) t (suc n) left)))
        (ok_inj e2) (joined rows0 more here c p' result answers counted valid' read' rest)
    where
      joined :
          (rows0 more : List (Row V)) (g : Result Fault ℕ × PageManager files) (c : ℕ) (p' : Page)
          → g.0 ≡ ok c
          → ((j : PageId)
              → view codec files g.1 j
                ≡ (if page_id_beq (page_id t n) j then p' else view codec files m j))
          → c + length (alive codec oldest rows0) ≡ length rows0
          → IsLaid p'
          → Page.get_all_rows codec p' ≡ ok (alive codec oldest rows0)
          → IsVacuumed g.1
              (suc n)
              left
              more
              (each_page codec files 0 ◌+◌ (vacuum_page codec oldest) t (suc n) left g.1)
          → IsVacuumed m n (suc left) (rows0 ++ more) (
              then_pages codec files ◌+◌ g
                (each_page codec files 0 ◌+◌ (vacuum_page codec oldest) t (suc n) left))
      joined rows0 more (err d, m1) c p' result answers counted laid' read' rest =
          absurd (ground (arith, result))
      joined rows0 more (ok c', m1) c p' result answers counted laid' read' rest =
          let final : PageManager files =
            (each_page codec files 0 ◌+◌ (vacuum_page codec oldest) t (suc n) left m1).1 in
          let first : view codec files final (page_id t n) ≡ p' =
            rest.others (page_id t n)
              (λ k above below. page_id-other t k n (λ q. omega (arith, q, above)))
            ∙ answers (page_id t n)
            ∙ rw (page_id_self t n) refl in
          record {
            removed = c' + rest.removed;
            result = ap (λ o. o >>= λ q. ok (c' + q)) rest.result;
            counted = omega (
              arith,
              ok_inj result,
              counted,
              rest.counted,
              length-append {0} rows0 more,
              length-alive rows0 more,
            );
            valid = rest.valid;
            read =
                ap
                  (λ o. o >>= λ l.
                    content_from codec files final t.table_id (suc n) left >>= λ q. ok (l ++ q))
                  (ap (Page.get_all_rows codec) first ∙ read')
                ∙ ap (λ o. o >>= λ q. ok (alive codec oldest rows0 ++ q)) rest.read
                ∙ ap ok (sym (retain-append (λ r. not (is_dead r oldest)) rows0 more));
            laid = λ k above below. elim (Bool-cases (nat_beq k n)) [
              | inl same ↦
                  subst (λ i. IsLaid (view codec files final (page_id t i)))
                    (sym ((nat_beq_iff k n).0 same)) (subst IsLaid (sym first) laid')
              | inr other ↦
                  rest.laid k (omega (arith, above, nat_beq_ne k n other)) (omega (arith, below))
            ];
            others = λ j apart.
                rest.others j
                  (λ k above below. apart k (omega (arith, above)) (omega (arith, below)))
                ∙ answers j
                ∙ rw (apart n (omega arith) (omega arith)) refl;
          }

  -- VACUUM on a valid table, in a valid state of the page manager: it succeeds, the rows of the
  -- table are those that were not dead, in their order (dead are those whose deleter is at most the
  -- horizon, not only below it), the number that is returned is that of the others, the table stays
  -- valid, and the answer for every page of another table is what it was.
  pub vacuum_effect :
      (m : PageManager files) (old : IsTable codec files m t)
      → (n : ℕ) × (table : IsTable codec files (vacuum codec files (m, t) oldest).1.0 t) × ((vacuum
            codec files
            (m, t)
            oldest).0
          ≡ ok n)
        × (table.rows ≡ alive codec oldest old.rows)
        × (n + length (alive codec oldest old.rows) ≡ length old.rows)
        × ((j : PageId)
            → j.table_id ≢ t.table_id
            → view codec files (vacuum codec files (m, t) oldest).1.0 j ≡ view codec files m j)
  unfolding vacuum
  vacuum_effect m old =
      let done =
        each_page-IsVacuumed 0 t.page_count m old.rows old.valid
          (λ k above below. old.laid k (omega (arith, below))) old.read in
      (
        done.removed,
        record {
          valid = done.valid;
          laid = λ k below. done.laid k (omega arith) (omega (arith, below));
          rows = alive codec oldest old.rows;
          read = done.read;
        },
        done.result,
        refl,
        done.counted,
        λ j other. done.others j (λ k above below. other_table t j k other),
      )
