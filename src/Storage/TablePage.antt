-- ===== src/Storage/TablePage.antt =====
-- What the methods of src/storage/paged_table.rs do on one page: their closures.
use postgrust_sql.Prelude.{
  ℕ, String, zero, suc, ◌%◌, ◌^◌, Bool, true, false, Option, none, some, List, [], ◌∷◌, length,
  if◌then◌else◌,
}
use mathlib.Core.List.{reverse}
use postgrust_sql.Prelude.Result.{Result, ok, err, ◌>>=◌}
use postgrust_sql.Core.Error.{DbResult}
use postgrust_sql.Core.Row.{Row, mark_deleted, is_dead}
use postgrust_sql.Storage.Page.{
  Page, Bincode, Fault, failed, panicked, can_fit, insert_row, get_row, update_row, delete_row,
}

-- a panic goes through the guard as a result of its own
abbrev pub caught : {R : Type 0} → Result Fault R × Page → DbResult (Option R) × Page
caught (ok r, p) = (ok (some r), p)
caught (err (failed e), p) = (err e, p)
caught (err panicked, p) = (ok none, p)

abbrev pub released : {R : Type 0} → DbResult (Option R) → Result Fault R
released (ok (some r)) = ok r
released (ok none) = err panicked
released (err e) = err (failed e)

-- the change of the page, if the call on it succeeds
abbrev pub with_result :
    {R A : Type 0} → Page → (A → R) → Result Fault (A × Page) → Result Fault R × Page
with_result p f (ok (a, p')) = (ok (f a), p')
with_result p f (err e) = (err e, p)

module _ {V : Type 0} (codec : Bincode V) where
  open codec use {serialize_row}

  -- the encoding is unwrapped
  abbrev pub if_fits : Row V → Page → Result String (List ℕ) → Result Fault Bool × Page
  if_fits row page (err e) = (err panicked, page)
  if_fits row page (ok bytes) =
      if can_fit page (length bytes)
      then with_result page (λ _. true) (insert_row codec page row)
      else (ok false, page)

  -- the closure of `insert`: `false` where the row does not fit
  unfoldable pub try_insert : Row V → Page → Result Fault Bool × Page
  try_insert row page = if_fits row page (serialize_row row)

  unfoldable pub insert_only : Row V → Page → Result Fault ℕ × Page
  insert_only row page = with_result page (λ slot. slot) (insert_row codec page row)

  module _ (predicate : Row V → Result Fault Bool) (tx_id : ℕ) where
    abbrev pub add_marked :
        Row V → Result Fault (List (Row V)) × Page → Result Fault (List (Row V)) × Page
    add_marked row (rows, page) = (rows >>= λ rows. ok (row ∷ rows), page)

    -- one row of the walk; the answer `false` of `update_row` is dropped
    abbrev pub mark_row :
        Page
        → ℕ
        → Result Fault (Row V)
        → (Page → Result Fault (List (Row V)) × Page)
        → Result Fault (List (Row V)) × Page
    mark_row page slot_idx (err (failed e)) rest = rest page
    mark_row page slot_idx (err panicked) rest = (err panicked, page)
    mark_row page slot_idx (ok row) rest = elim (predicate row) [
      | err e ↦ (err e, page)
      | ok false ↦ rest page
      | ok true ↦ elim (update_row codec page slot_idx (mark_deleted row tx_id)) [
        | err e ↦ (err e, page)
        | ok (_, page') ↦ add_marked (mark_deleted row tx_id) (rest page')
      ]
    ]

    -- the walk over `left` slots from number `slot_idx` on, with the rows that were marked
    unfoldable pub mark_slots : ℕ → ℕ → Page → Result Fault (List (Row V)) × Page
    mark_slots slot_idx zero page = (ok [], page)
    mark_slots slot_idx (suc left) page =
        mark_row page (slot_idx % 2 ^ 16) (get_row codec page (slot_idx % 2 ^ 16))
          (λ page'. mark_slots (suc slot_idx) left page')

    unfoldable pub mark_page : Page → Result Fault (List (Row V)) × Page
    unfolding mark_slots
    mark_page page = mark_slots 0 (length page.slots) page

  abbrev pub if_dead : ℕ → ℕ → Result Fault (Row V) → Result Fault (List ℕ) → Result Fault (List ℕ)
  if_dead oldest_tx slot_idx (ok row) rest = do
    slots ← rest
    ok (if is_dead row oldest_tx then slot_idx ∷ slots else slots)
  if_dead oldest_tx slot_idx (err (failed e)) rest = rest
  if_dead oldest_tx slot_idx (err panicked) rest = err panicked

  -- the numbers of the slots with dead rows, among `left` slots from number `slot_idx` on
  unfoldable pub dead_slots : ℕ → ℕ → ℕ → Page → Result Fault (List ℕ)
  dead_slots oldest_tx slot_idx zero page = ok []
  dead_slots oldest_tx slot_idx (suc left) page =
      if_dead oldest_tx (slot_idx % 2 ^ 16) (get_row codec page (slot_idx % 2 ^ 16))
        (dead_slots oldest_tx (suc slot_idx) left page)

unfoldable pub delete_rows : List ℕ → Page → Result Fault Page
delete_rows [] page = ok page
delete_rows (slot_idx ∷ slots) page = do page' ← delete_row page slot_idx; delete_rows slots page'

module _ {V : Type 0} (codec : Bincode V) where
  -- the closure of `vacuum`; no deletion fails, since the slots exist
  unfoldable pub vacuum_page : ℕ → Page → Result Fault ℕ × Page
  unfolding dead_slots delete_rows
  vacuum_page oldest_tx page =
      with_result page (λ n. n)
        (do
          slots ← dead_slots codec oldest_tx 0 (length page.slots) page
          page' ← delete_rows (reverse slots) page
          ok (length slots, page'))
