-- ===== src/Examples/Tables.antt =====
-- A table of one page with a row in use and a deleted one, for src/storage/paged_table.rs.
use postgrust_sql.Prelude.{
  ℕ, zero, suc, ◌+◌, ◌<◌, String, ◌≡◌, ◌≢◌, refl, ap, ◌∙◌, true, Option, none, some, List, [], ◌∷◌,
  ◌++◌, length, replicate, arith, Bool-cases, inl, inr, subst, sym, nat_beq, nat_beq_iff,
}
use postgrust_sql.Prelude.Int.{pos}
use postgrust_sql.Prelude.Map.{get}
use postgrust_sql.Prelude.Result.{Result, ok, err, ◌>>=◌}
use postgrust_sql.Core.Value.{Value, integer}
use postgrust_sql.Core.Row.{Row}
use postgrust_sql.Storage.Page
use postgrust_sql.Storage.Page.{
  Page, PageId, Bincode, Decodes, new_header, can_fit, free_space, get_all_rows,
}
use postgrust_sql.Storage.Page.Layout.{IsValid as IsLaid, new-IsValid, pushed, pushed-IsValid}
use postgrust_sql.Storage.Page.Scan.{get_all_rows-pushed}
use postgrust_sql.Storage.PageManager.{PageManager}
use postgrust_sql.Storage.PageManager.View.{IsValid, view}
use postgrust_sql.Storage.PagedTable
use postgrust_sql.Storage.PagedTable.{PagedTable, insert, vacuum}
use postgrust_sql.Storage.PagedTable.Access.{nat_beq_ne, content_from, get_all_rows_effect}
use postgrust_sql.Storage.PagedTable.Insertion.{IsTable, IsInserted, insert_effect}
use postgrust_sql.Storage.PagedTable.Refusals.{insert_ok}
use postgrust_sql.Storage.PagedTable.Sweep.{alive}
use postgrust_sql.Storage.PagedTable.Vacuum.{vacuum_effect}
use postgrust_sql.Examples.Indexes.{externals}
use postgrust_sql.Examples.Managers.{files, page_id, manager_with, manager_with-IsValid}

-- a code for rows of one number that is not negative
abbrev encode_values : List (Value externals) → ℕ → Option ℕ → Result String (List ℕ)
encode_values (integer (pos n) ∷ []) xmin none = ok (xmin ∷ 0 ∷ n ∷ [])
encode_values (integer (pos n) ∷ []) xmin (some xmax) = ok (xmin ∷ 1 ∷ xmax ∷ n ∷ [])
encode_values _ xmin xmax = err "unsupported"

abbrev decode : List ℕ → Result String (Row (Value externals))
decode (xmin ∷ zero ∷ n ∷ []) =
    ok (record { values = integer (pos n) ∷ []; xmin = xmin; xmax = none })
decode (xmin ∷ suc zero ∷ xmax ∷ n ∷ []) =
    ok (record { values = integer (pos n) ∷ []; xmin = xmin; xmax = some xmax })
decode _ = err "unexpected end of file"

pub decode-encode_values :
    (values : List (Value externals)) (xmin : ℕ) (xmax : Option ℕ) (bs : List ℕ)
    → encode_values values xmin xmax ≡ ok bs
    → decode bs ≡ ok (record { values = values; xmin = xmin; xmax = xmax })
decode-encode_values (integer (pos n) ∷ []) xmin none bs e = ground (arith, e)
decode-encode_values (integer (pos n) ∷ []) xmin (some xmax) bs e = ground (arith, e)
decode-encode_values _ xmin xmax bs e = absurd (ground (arith, e))

abbrev pub codec : Bincode (Value externals)
codec = record {
  serialize_row = λ r. encode_values r.values r.xmin r.xmax;
  deserialize_row = decode;
  serialize_header = λ h. replicate 20 0;
  header_length = λ h. refl;
}

pub decodes : (r : Row (Value externals)) → Decodes codec r
decodes r bs e = decode-encode_values r.values r.xmin r.xmax bs e

-- the row in use, of transaction 3, and the one that transaction 1 wrote and transaction 2 deleted
abbrev pub kept_row : Row (Value externals)
kept_row = record { values = integer (pos 7) ∷ []; xmin = 3; xmax = none }

abbrev pub dead_row : Row (Value externals)
dead_row = record { values = integer (pos 8) ∷ []; xmin = 1; xmax = some 2 }

abbrev empty_page : Page
empty_page = Page.new codec (page_id 0)

abbrev one_row : Page
one_row = pushed empty_page (3 ∷ 0 ∷ 7 ∷ [])

abbrev two_rows : Page
two_rows = pushed one_row (1 ∷ 1 ∷ 2 ∷ 8 ∷ [])

first_fits : can_fit empty_page 3 ≡ true
unfolding can_fit free_space Page.new new_header
first_fits = refl

one_row-IsLaid : IsLaid one_row
one_row-IsLaid =
    pushed-IsValid empty_page (3 ∷ 0 ∷ 7 ∷ []) (new-IsValid codec (page_id 0)) first_fits

second_fits : can_fit one_row 4 ≡ true
unfolding can_fit free_space Page.new new_header
second_fits = refl

pub two_rows-IsLaid : IsLaid two_rows
two_rows-IsLaid = pushed-IsValid one_row (1 ∷ 1 ∷ 2 ∷ 8 ∷ []) one_row-IsLaid second_fits

no_rows : get_all_rows codec empty_page ≡ ok []
unfolding Page.new Page.get_all_rows Page.rows_from
no_rows = refl

pub rows_of_page : get_all_rows codec two_rows ≡ ok (kept_row ∷ dead_row ∷ [])
rows_of_page =
    get_all_rows-pushed codec one_row dead_row (1 ∷ 1 ∷ 2 ∷ 8 ∷ []) one_row-IsLaid refl second_fits
      refl
    ∙ ap (λ o. o >>= λ rows. ok (rows ++ dead_row ∷ []))
        (get_all_rows-pushed codec empty_page kept_row (3 ∷ 0 ∷ 7 ∷ [])
            (new-IsValid codec (page_id 0)) refl first_fits refl
          ∙ ap (λ o. o >>= λ rows. ok (rows ++ kept_row ∷ [])) no_rows)

abbrev pub manager : PageManager files
manager = manager_with two_rows

pub manager-IsValid : IsValid codec files manager
unfolding Page.new new_header
manager-IsValid = manager_with-IsValid codec two_rows refl

abbrev pub table : PagedTable
table = record { table_id = 1; page_count = 1; row_count = 2 }

pub table-IsLaid : (k : ℕ) → k < 1 → IsLaid (view codec files manager (page_id k))
unfolding get
table-IsLaid k below = elim (Bool-cases (nat_beq k 0)) [
  | inl e ↦
      subst (λ i. IsLaid (view codec files manager (page_id i))) (sym ((nat_beq_iff k 0).0 e))
        two_rows-IsLaid
  | inr e ↦ absurd (omega (arith, below, nat_beq_ne k 0 e))
]

pub table_read : content_from codec files manager 1 0 1 ≡ ok (kept_row ∷ dead_row ∷ [])
unfolding get
table_read = ap (λ o. o >>= λ rows. ok (rows ++ [])) rows_of_page

abbrev pub table-IsTable : IsTable codec files manager table
table-IsTable = record {
  valid = manager-IsValid;
  laid = table-IsLaid;
  rows = kept_row ∷ dead_row ∷ [];
  read = table_read;
}

get_all_rows_effect_example :
    ((PagedTable.get_all_rows codec files (manager, table)).0
      ≡ content_from codec files manager 1 0 1)
    × IsValid codec files (PagedTable.get_all_rows codec files (manager, table)).1.0
    × ((PagedTable.get_all_rows codec files (manager, table)).1.1 ≡ table)
    × ((j : PageId)
        → view codec files (PagedTable.get_all_rows codec files (manager, table)).1.0 j
          ≡ view codec files manager j)
get_all_rows_effect_example = get_all_rows_effect codec files manager table manager-IsValid

insert_effect_example :
    ((insert codec files (manager, table) kept_row).0 ≡ ok tt)
    × IsInserted codec files kept_row manager table table-IsTable
        (insert codec files (manager, table) kept_row).1.0
        (insert codec files (manager, table) kept_row).1.1
unfolding can_fit free_space Page.new new_header
insert_effect_example =
    insert_effect codec files manager table table-IsTable kept_row (3 ∷ 0 ∷ 7 ∷ []) refl refl
      (omega arith) refl

insert_ok_example :
    IsInserted codec files kept_row manager table table-IsTable
      (insert codec files (manager, table) kept_row).1.0
      (insert codec files (manager, table) kept_row).1.1
insert_ok_example =
    insert_ok codec files table kept_row manager table-IsTable (omega arith) (decodes kept_row)
      insert_effect_example.0

vacuum_effect_example :
    (n : ℕ) × (swept : IsTable codec files (vacuum codec files (manager, table) 3).1.0 table)
    × ((vacuum codec files (manager, table) 3).0 ≡ ok n)
    × (swept.rows ≡ alive codec 3 (kept_row ∷ dead_row ∷ []))
    × (n + length (alive codec 3 (kept_row ∷ dead_row ∷ [])) ≡ 2)
    × ((j : PageId)
        → j.table_id ≢ 1
        → view codec files (vacuum codec files (manager, table) 3).1.0 j
          ≡ view codec files manager j)
vacuum_effect_example = vacuum_effect codec files 3 table manager table-IsTable
