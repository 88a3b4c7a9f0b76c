-- ===== src/Storage/Page/Rows.antt =====
-- Rows read back after they were inserted, updated or deleted, and what stays untouched.
use postgrust_sql.Prelude.{
  ◌==◌, nat_eq, if◌then◌else◌, Bool-cases, subst, inl, ℕ, ◌+◌, ◌-◌, ◌≤◌, ◌≡◌, ◌≢◌, ◌⊎◌, inr, refl,
  sym, ap, ◌∙◌, true, false, Option, none, some, List, [], ◌∷◌, ◌++◌, length, get_elem?, arith,
  get_elem?-append,
}
use postgrust_sql.Prelude.Result.{Result, ok, err}
use postgrust_sql.Core.Error.{io}
use postgrust_sql.Core.Row.{Row}
use postgrust_sql.Storage.Bytes.{write, read, length-write, read-write, read-write_disjoint}
use postgrust_sql.Storage.Page.{
  Page, Slot, Bincode, Fault, failed, page_size, can_fit, insert_row, read_slot, get_row, map_err,
}
use postgrust_sql.Storage.Page.Layout.{
  IsValid, pushed, Laid-bounds, store_row-pushed, pushed-IsValid, room, upper-le,
}

-- what one slot number gives and what the others keep, put together
pub at_slot :
    {A : Type 0} (f g : ℕ → A) (i : ℕ) (a : A)
    → f i ≡ a
    → ((j : ℕ) → j ≢ i → f j ≡ g j)
    → (j : ℕ) → f j ≡ (if j == i then a else g j)
at_slot f g i a here others j = elim (Bool-cases (j == i)) [
  | inl same ↦ let e : j ≡ i = ground arith in rw (same) (subst (λ n. f n ≡ a) (sym e) here)
  | inr other ↦ rw (other) (others j (ground arith))
]

module _ {V : Type 0} (codec : Bincode V) where
  open codec use {serialize_row, deserialize_row}

  -- what a slot number gives, by the slot that stands there
  abbrev pub row_of : Page → Option Slot → Result Fault (Row V)
  row_of p none = err (failed (io "Invalid slot index"))
  row_of p (some slot) = read_slot codec p slot

  pub get_row-row_of : (p : Page) (i : ℕ) → get_row codec p i ≡ row_of p (get_elem? p.slots i)
  unfolding get_row
  get_row-row_of p i = ground arith

  -- a write elsewhere does not change what a slot reads
  pub read_slot-write :
      (p p' : Page) (slot : Slot) (o : ℕ) (bs : List ℕ)
      → p'.bytes ≡ write o bs p.bytes
      → (slot.offset + slot.length ≤ o) ⊎ (o + length bs ≤ slot.offset)
      → read_slot codec p' slot ≡ read_slot codec p slot
  unfolding read_slot
  read_slot-write p p' slot o bs e d =
      rw (e, length-write o bs p.bytes, read-write_disjoint slot.offset slot.length o bs p.bytes d)

  -- a slot reads what its bytes decode to
  pub read_slot_of :
      (p : Page) (slot : Slot) (bs : List ℕ)
      → slot.is_used ≡ true
      → slot.offset + slot.length ≤ length p.bytes
      → read slot.offset slot.length p.bytes ≡ bs
      → read_slot codec p slot ≡ map_err (deserialize_row bs)
  unfolding read_slot
  read_slot_of p slot bs used inside same = ground (arith, same)

  module _ (p : Page) (row : Row V) (bs : List ℕ) (encoded : serialize_row row ≡ ok bs)
      (v : IsValid p) where
    -- A row that can be encoded and does not fit is refused with an error.
    pub insert_row_full :
        can_fit p (length bs) ≡ false → insert_row codec p row ≡ err (failed (io "Page is full"))
    unfolding insert_row
    insert_row_full full = ground (arith, encoded)

    pub inserted :
        can_fit p (length bs) ≡ true → insert_row codec p row ≡ ok (length p.slots, pushed p bs)
    unfolding insert_row
    inserted fits = ground (arith, encoded, store_row-pushed p bs v fits)

    pub get_row-pushed :
        can_fit p (length bs) ≡ true
        → get_row codec (pushed p bs) (length p.slots) ≡ map_err (deserialize_row bs)
    get_row-pushed fits =
        let slot : Slot = record {
          offset = p.header.upper - length bs;
          length = length bs;
          is_used = true;
        } in
        let inside : p.header.upper - length bs + length bs ≤ length p.bytes =
          omega (arith, room p bs v fits, upper-le p bs v fits, v.full_size) in
        let there : get_elem? (p.slots ++ slot ∷ []) (length p.slots) ≡ some slot =
          ground (arith, get_elem?-append p.slots slot (length p.slots)) in
        get_row-row_of (pushed p bs) (length p.slots)
        ∙ ap (row_of (pushed p bs)) there
        ∙ read_slot_of (pushed p bs) slot bs refl
            (omega (arith, inside, length-write (p.header.upper - length bs) bs p.bytes))
            (read-write (p.header.upper - length bs) bs p.bytes inside)

    pub row_of-pushed :
        (j : ℕ) (o : Option Slot)
        → can_fit p (length bs) ≡ true
        → get_elem? p.slots j ≡ o
        → row_of (pushed p bs) o ≡ row_of p o
    row_of-pushed j none fits e = refl
    row_of-pushed j (some slot) fits e =
        read_slot-write p (pushed p bs) slot (p.header.upper - length bs) bs refl (
          inr (
            omega
              (arith, Laid-bounds page_size p.slots j slot v.laid e, room p bs v fits, v.lowest)))

    get_row-pushed_ne :
        (j : ℕ)
        → can_fit p (length bs) ≡ true
        → j ≢ length p.slots
        → get_row codec (pushed p bs) j ≡ get_row codec p j
    get_row-pushed_ne j fits other =
        let slot : Slot = record {
          offset = p.header.upper - length bs;
          length = length bs;
          is_used = true;
        } in
        let there : get_elem? (p.slots ++ slot ∷ []) j ≡ get_elem? p.slots j =
          ground (arith, get_elem?-append p.slots slot j) in
        get_row-row_of (pushed p bs) j
        ∙ ap (row_of (pushed p bs)) there
        ∙ row_of-pushed j (get_elem? p.slots j) fits refl
        ∙ sym (get_row-row_of p j)

    -- On a page that is well laid out, a row that can be encoded and fits is inserted: the call
    -- returns the next slot number and a page that is well laid out, on which that slot gives what
    -- the row's encoding decodes to, the row or an error, and every other slot number gives what it
    -- gave.
    pub insert_row_effect :
        can_fit p (length bs) ≡ true
        → (p' : Page) × (insert_row codec p row ≡ ok (length p.slots, p'))
          × IsValid p'
          × ((j : ℕ)
              → get_row codec p' j
                ≡ (if j == length p.slots then map_err (deserialize_row bs) else get_row codec p j))
    insert_row_effect fits = (
      pushed p bs,
      inserted fits,
      pushed-IsValid p bs v fits,
      at_slot (get_row codec (pushed p bs)) (get_row codec p) (length p.slots)
          (map_err (deserialize_row bs)) (get_row-pushed fits)
          (λ j other. get_row-pushed_ne j fits other),
    )
