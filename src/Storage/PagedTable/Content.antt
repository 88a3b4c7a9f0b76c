-- ===== src/Storage/PagedTable/Content.antt =====
-- The rows of a run of pages, when one page changes or one is added.
use postgrust_sql.Prelude.{
  ℕ, zero, suc, ◌+◌, ◌≤◌, ◌<◌, ◌≡◌, ◌≢◌, refl, sym, ap, ◌∙◌, Bool, true, false, List, [], ◌∷◌, ◌++◌,
  arith, subst, OneMore, OneMore-behind, append_assoc, append-nil, nat_beq, nat_beq_iff,
}
use postgrust_sql.Prelude.Result.{Result, ok, ◌>>=◌, ok_inj, bind_ok}
use postgrust_sql.Core.Row.{Row}
use postgrust_sql.Storage.Page
use postgrust_sql.Storage.Page.{
  Page, PageId, Bincode, Fault, failed, panicked, can_fit, insert_row, page_id_beq, page_id_beq_iff,
  new_header,
}
use postgrust_sql.Storage.Page.Layout.{IsValid as IsLaid}
use postgrust_sql.Storage.Page.Scan.{get_all_rows-pushed}
use postgrust_sql.Storage.PageManager.{PageManager, PageFiles}
use postgrust_sql.Storage.PageManager.View.{view}
use postgrust_sql.Storage.PagedTable.{PagedTable, page_id, page_at}
use postgrust_sql.Storage.PagedTable.Access.{
  content_from, content_from-same, page_id-other, nat_beq_ne, nat_gap,
}
use postgrust_sql.Storage.PagedTable.Attempts.{IsPushed}

module _ {V : Type 0} (codec : Bincode V) (files : PageFiles) (t : PagedTable) (row : Row V)
    (bs : List ℕ) (encoded : codec.serialize_row row ≡ ok bs)
    (decoded : codec.deserialize_row bs ≡ ok row) where
  -- the rows of pages among which page `k` got the row
  pub content_from-IsPushed :
      (m m' : PageManager files) (k n left : ℕ) (rows : List (Row V))
      → IsPushed codec files t row bs encoded m m' k
      → IsLaid (view codec files m (page_id t k))
      → n ≤ k
      → k < n + left
      → content_from codec files m t.table_id n left ≡ ok rows
      → (rows' : List (Row V)) × (content_from codec files m' t.table_id n left ≡ ok rows')
        × OneMore row rows rows'
  content_from-IsPushed m m' k n zero rows p laid above below e =
      absurd (omega (arith, above, below))
  content_from-IsPushed m m' k n (suc left) rows p laid above below e =
      let (rows0, e0, e') =
        bind_ok (Page.get_all_rows codec (view codec files m (page_id t n))) _ rows e in
      let (more, e1, e2) = bind_ok (content_from codec files m t.table_id (suc n) left) _ rows e' in
      by_page rows0 more e0 e1 (ok_inj e2) (nat_beq k n) refl
        (content_from-IsPushed m m' k (suc n) left more p laid)
    where
      Found : Type 0
      Found =
          (rows' : List (Row V)) × (content_from codec files m' t.table_id n (suc left) ≡ ok rows')
          × OneMore row rows rows'

      by_page :
          (rows0 more : List (Row V))
          → Page.get_all_rows codec (view codec files m (page_id t n)) ≡ ok rows0
          → content_from codec files m t.table_id (suc n) left ≡ ok more
          → rows0 ++ more ≡ rows
          → (b : Bool) → nat_beq k n ≡ b
          → (suc n ≤ k
              → k < suc n + left
              → content_from codec files m t.table_id (suc n) left ≡ ok more
              → (more' : List (Row V)) × (content_from codec files m' t.table_id (suc n) left
                  ≡ ok more')
                × OneMore row more more')
          → Found
      by_page rows0 more e0 e1 joined true same later =
          let here : k ≡ n = (nat_beq_iff k n).0 same in
          let now : Page.get_all_rows codec (view codec files m' (page_id t n))
              ≡ ok (rows0 ++ row ∷ []) =
            ap (Page.get_all_rows codec) (
              p.answers (page_id t n)
              ∙ rw ((page_id_beq_iff (page_id t k) (page_id t n)).1 (ap (page_id t) here)) refl)
            ∙ get_all_rows-pushed codec (view codec files m (page_id t k)) row bs laid encoded
                p.fits decoded
            ∙ ap (λ o. o >>= λ l. ok (l ++ row ∷ []))
                (ap (λ i. Page.get_all_rows codec (view codec files m (page_id t i))) here ∙ e0) in
          let rest : content_from codec files m' t.table_id (suc n) left ≡ ok more =
            content_from-same codec files m m' t.table_id (suc n) left (λ i i_above i_below.
              p.answers (page_id t i) ∙ rw (page_id-other t k i (nat_gap k n i here i_above)) refl)
            ∙ e1 in
          (
            (rows0 ++ row ∷ []) ++ more,
            rw (now, rest) refl,
            record {
              front = rows0;
              back = more;
              old = sym joined;
              new = append_assoc rows0 (row ∷ []) more;
            },
          )
      by_page rows0 more e0 e1 joined false other later =
          let apart : k ≢ n = nat_beq_ne k n other in
          let same : view codec files m' (page_id t n) ≡ view codec files m (page_id t n) =
            p.answers (page_id t n) ∙ rw (page_id-other t k n apart) refl in
          let (more', e3, one) = later (omega (arith, above, apart)) (omega (arith, below)) e1 in
          (
            rows0 ++ more',
            rw (same, e0, e3) refl,
            subst (λ l. OneMore row l (rows0 ++ more')) joined
                (OneMore-behind row rows0 more more' one),
          )

module _ {V : Type 0} (codec : Bincode V) (files : PageFiles) where
  pub content_from-snoc :
      (m : PageManager files) (id n left : ℕ) (rows last : List (Row V))
      → content_from codec files m id n left ≡ ok rows
      → Page.get_all_rows codec (view codec files m (page_at id (n + left))) ≡ ok last
      → content_from codec files m id n (suc left) ≡ ok (rows ++ last)
  content_from-snoc m id n zero rows last e e' =
      let here : Page.get_all_rows codec (view codec files m (page_at id n)) ≡ ok last =
        subst (λ i. Page.get_all_rows codec (view codec files m (page_at id i)) ≡ ok last)
          (omega arith) e' in
      ap (λ o. o >>= λ l. ok (l ++ [])) here
      ∙ ap ok (append-nil last ∙ ap (λ l. l ++ last) (ok_inj e))
  content_from-snoc m id n (suc left) rows last e e' =
      let first : Result Fault (List (Row V)) =
        Page.get_all_rows codec (view codec files m (page_at id n)) in
      let (rows0, e0, e1) = bind_ok first _ rows e in
      let (more, e2, e3) = bind_ok (content_from codec files m id (suc n) left) _ rows e1 in
      let rest : content_from codec files m id (suc n) (suc left) ≡ ok (more ++ last) =
        content_from-snoc m id (suc n) left more last e2 (
          subst (λ i. Page.get_all_rows codec (view codec files m (page_at id i)) ≡ ok last)
            (omega arith) e') in
      ap (λ o. first >>= λ l. o >>= λ q. ok (l ++ q)) rest
      ∙ ap (λ o. o >>= λ l. ok (l ++ (more ++ last))) e0
      ∙ ap ok (sym (append_assoc rows0 more last) ∙ ap (λ l. l ++ last) (ok_inj e3))
