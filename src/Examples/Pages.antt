-- ===== src/Examples/Pages.antt =====
-- A page with one row, for src/storage/page.rs.
use postgrust_sql.Prelude.{
  ℕ, zero, suc, ◌≡◌, refl, true, false, none, some, List, [], ◌∷◌, replicate, arith, ◌==◌, nat_eq,
  if◌then◌else◌, String,
}
use postgrust_sql.Prelude.Result.{Result, ok, err}
use postgrust_sql.Core.Row.{Row, mark_deleted}
use postgrust_sql.Storage.Page.{
  Page, PageId, Slot, Bincode, new, new_header, can_fit, free_space, insert_row, get_row,
  update_row,
}
use postgrust_sql.Storage.Page.Layout.{IsValid, new-IsValid, pushed, pushed-IsValid}
use postgrust_sql.Storage.Page.Rows.{insert_row_effect}
use postgrust_sql.Storage.Page.Changes.{update_row_fits, inserted_row_cannot_be_marked}

-- a code for rows of numbers: as with `bincode`, an `xmax` that is set makes the bytes longer
abbrev pub encode : Row ℕ → Result String (List ℕ)
encode r = elim r.xmax [
  | none ↦ ok (r.xmin ∷ 0 ∷ r.values)
  | some xmax ↦ ok (r.xmin ∷ 1 ∷ xmax ∷ r.values)
]

abbrev pub decode : List ℕ → Result String (Row ℕ)
decode (xmin ∷ zero ∷ values) = ok (record { values = values; xmin = xmin; xmax = none })
decode (xmin ∷ suc zero ∷ xmax ∷ values) =
    ok (record { values = values; xmin = xmin; xmax = some xmax })
decode _ = err "unexpected end of file"

pub decode-encode : (r : Row ℕ) (bs : List ℕ) → encode r ≡ ok bs → decode bs ≡ ok r
decode-encode r bs e = ground (arith, e)

abbrev pub codec : Bincode ℕ
codec = record {
  serialize_row = encode;
  deserialize_row = decode;
  serialize_header = λ h. replicate 20 0;
  header_length = λ h. refl;
}

abbrev id : PageId
id = record { table_id = 1; page_number = 0 }

-- the row of the value 42, of transaction 3
abbrev row : Row ℕ
row = record { values = 42 ∷ []; xmin = 3; xmax = none }

new-IsValid_example : IsValid (new codec id)
new-IsValid_example = new-IsValid codec id

fits : can_fit (new codec id) 3 ≡ true
unfolding can_fit free_space new new_header
fits = refl

insert_row_effect_example :
    (p' : Page) × (insert_row codec (new codec id) row ≡ ok (0, p'))
    × IsValid p'
    × ((j : ℕ) → get_row codec p' j ≡ (if j == 0 then ok row else get_row codec (new codec id) j))
unfolding new
insert_row_effect_example =
    insert_row_effect codec (new codec id) row (3 ∷ 0 ∷ 42 ∷ []) refl (new-IsValid codec id) fits

-- the page after it, with the slot of the row
abbrev one_row : Page
one_row = pushed (new codec id) (3 ∷ 0 ∷ 42 ∷ [])

abbrev slot : Slot
slot = record { offset = 8189; length = 3; is_used = true }

one_row-IsValid : IsValid one_row
one_row-IsValid = pushed-IsValid (new codec id) (3 ∷ 0 ∷ 42 ∷ []) (new-IsValid codec id) fits

update_row_fits_example :
    (p' : Page) × (update_row codec one_row 0 (record row { values = 43 ∷ [] }) ≡ ok (true, p'))
    × IsValid p'
    × ((j : ℕ)
        → get_row codec p' j
          ≡ (if j == 0 then ok (record row { values = 43 ∷ [] }) else get_row codec one_row j))
unfolding new new_header
update_row_fits_example =
    update_row_fits codec one_row 0 slot one_row-IsValid refl (record row { values = 43 ∷ [] })
      (3 ∷ 0 ∷ 43 ∷ []) refl refl (omega arith)

-- the mark of a deletion makes the row longer
inserted_row_cannot_be_marked_example :
    (p' : Page) × (insert_row codec (new codec id) row ≡ ok (0, p'))
    × (update_row codec p' 0 (mark_deleted row 4) ≡ ok (false, p'))
unfolding new mark_deleted
inserted_row_cannot_be_marked_example =
    inserted_row_cannot_be_marked codec (new codec id) row 4 (3 ∷ 0 ∷ 42 ∷ []) (3 ∷ 1 ∷ 4 ∷ 42 ∷ [])
      (new-IsValid codec id) refl fits refl (omega arith)
