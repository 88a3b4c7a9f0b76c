-- ===== src/Storage/Page/Scan.antt =====
-- All rows of a page, slot by slot.
use postgrust_sql.Prelude.{
  ℕ, suc, ◌+◌, ◌-◌, ◌%◌, ◌^◌, ◌<◌, ◌≡◌, refl, sym, ap, ◌∙◌, Bool, true, false, some, List, [], ◌∷◌,
  ◌++◌, length, get_elem?, arith, if◌then◌else◌, append_assoc, length-append,
}
use postgrust_sql.Prelude.Result.{Result, ok, err, ◌>>=◌}
use postgrust_sql.Core.Row.{Row}
use postgrust_sql.Storage.Page.{
  Page, Slot, Bincode, Fault, failed, panicked, page_size, can_fit, read_slot, get_row, kept,
  rows_from, get_all_rows, map_err,
}
use postgrust_sql.Storage.Page.Layout.{IsValid, pushed, bottom-le, pushed-IsValid}
use postgrust_sql.Storage.Page.Rows.{row_of, get_row-row_of, get_row-pushed, row_of-pushed}

-- the element behind a list is at its length
pub get_elem?-behind :
    {A : Type 0} (front : List A) (x : A) (back : List A)
    → get_elem? (front ++ x ∷ back) (length front) ≡ some x
get_elem?-behind [] x back = refl
get_elem?-behind (y ∷ front) x back = get_elem?-behind front x back

pub slots-lt : (p : Page) → IsValid p → length p.slots < 2 ^ 16
slots-lt p v = omega (arith, v.slots_above, v.apart, v.lowest, bottom-le page_size p.slots v.laid)

module _ {V : Type 0} (codec : Bincode V) where
  -- the rows of the slots, each read by itself
  abbrev pub scan : Page → List Slot → Result Fault (List (Row V))
  scan p [] = ok []
  scan p (slot ∷ slots) =
      let rest = scan p slots in
      if slot.is_used then kept codec (read_slot codec p slot) rest else rest

  rows_from-scan :
      (p : Page) (front slots : List Slot)
      → p.slots ≡ front ++ slots
      → length p.slots < 2 ^ 16
      → rows_from codec p (length front) slots ≡ scan p slots
  unfolding rows_from
  rows_from-scan p front [] e small = refl
  rows_from-scan p front (slot ∷ slots) e small =
      let here : length front % 2 ^ 16 ≡ length front =
        omega (arith, small, ap (λ l. length l) e, length-append {0} front (slot ∷ slots)) in
      let read : get_row codec p (length front % 2 ^ 16) ≡ read_slot codec p slot =
        ap (get_row codec p) here
        ∙ get_row-row_of codec p (length front)
        ∙ ap (λ l. row_of codec p (get_elem? l (length front))) e
        ∙ ap (row_of codec p) (get_elem?-behind front slot slots) in
      let more : rows_from codec p (length front + 1) slots ≡ scan p slots =
        ap (λ n. rows_from codec p n slots) (sym (length-append {0} front (slot ∷ [])))
        ∙ rows_from-scan p (front ++ slot ∷ []) slots
            (e ∙ sym (append_assoc front (slot ∷ []) slots)) small in
      rw (read, more) refl

  -- On a page that is well laid out, all rows are what the slots read.
  pub get_all_rows-scan : (p : Page) → IsValid p → get_all_rows codec p ≡ scan p p.slots
  unfolding get_all_rows
  get_all_rows-scan p v = rows_from-scan p [] p.slots refl (slots-lt p v)

  -- one more slot, which reads a row
  scan-snoc :
      (p : Page) (slots : List Slot) (slot : Slot) (row : Row V)
      → slot.is_used ≡ true
      → read_slot codec p slot ≡ ok row
      → scan p (slots ++ slot ∷ []) ≡ (scan p slots >>= λ rows. ok (rows ++ row ∷ []))
  unfolding kept
  scan-snoc p [] slot row used read = rw (read, used) refl
  scan-snoc p (s ∷ slots) slot row used read =
      by_slot s.is_used (read_slot codec p s) (scan p slots) (scan p (slots ++ slot ∷ []))
        (scan-snoc p slots slot row used read)
    where
      by_slot :
          (b : Bool) (r : Result Fault (Row V)) (old now : Result Fault (List (Row V)))
          → now ≡ (old >>= λ rows. ok (rows ++ row ∷ []))
          → (if b then kept codec r now else now)
            ≡ ((if b then kept codec r old else old) >>= λ rows. ok (rows ++ row ∷ []))
      by_slot false r old now e = e
      by_slot true (ok first) (ok rows) now e = rw (e) refl
      by_slot true (ok first) (err d) now e = rw (e) refl
      by_slot true (err (failed d)) old now e = e
      by_slot true (err panicked) old now e = refl

  -- pages on which the slots read the same
  scan-same :
      (p p' : Page) (slots : List Slot)
      → ((i : ℕ) (slot : Slot)
          → get_elem? slots i ≡ some slot
          → read_slot codec p' slot ≡ read_slot codec p slot)
      → scan p' slots ≡ scan p slots
  scan-same p p' [] same = refl
  scan-same p p' (s ∷ slots) same =
      rw (same 0 s refl, scan-same p p' slots (λ i. same (suc i))) refl

  -- An insertion on a page that is well laid out adds the row behind the others, if its encoding
  -- decodes to it.
  pub get_all_rows-pushed :
      (p : Page) (row : Row V) (bs : List ℕ)
      → IsValid p
      → codec.serialize_row row ≡ ok bs
      → can_fit p (length bs) ≡ true
      → codec.deserialize_row bs ≡ ok row
      → get_all_rows codec (pushed p bs) ≡ (get_all_rows codec p >>= λ rows. ok (rows ++ row ∷ []))
  get_all_rows-pushed p row bs v encoded fits decoded =
      let slot : Slot = record {
        offset = p.header.upper - length bs;
        length = length bs;
        is_used = true;
      } in
      let read : read_slot codec (pushed p bs) slot ≡ ok row =
        sym (
          get_row-row_of codec (pushed p bs) (length p.slots)
          ∙ ap (row_of codec (pushed p bs)) (get_elem?-behind p.slots slot []))
        ∙ get_row-pushed codec p row bs encoded v fits
        ∙ ap map_err decoded in
      get_all_rows-scan (pushed p bs) (pushed-IsValid p bs v fits)
      ∙ scan-snoc (pushed p bs) p.slots slot row refl read
      ∙ ap (λ o. o >>= λ rows. ok (rows ++ row ∷ []))
          (scan-same p (pushed p bs) p.slots
              (λ i s e. row_of-pushed codec p row bs encoded v i (some s) fits e)
            ∙ sym (get_all_rows-scan p v))
