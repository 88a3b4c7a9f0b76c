-- ===== src/Storage/Page/Changes.antt =====
-- Rows deleted or updated in place on a page.
use postgrust_sql.Prelude.{
  ◌-◌, get_elem?-append, ◌==◌, nat_eq, if◌then◌else◌, ℕ, ◌+◌, ◌≤◌, ◌<◌, ◌≡◌, ◌≢◌, refl, sym, ap,
  ◌∙◌, true, false, Option, none, some, List, length, get_elem?, set, arith, get_elem?-set,
  get_elem?-lt, length-set,
}
use postgrust_sql.Prelude.Result.{ok, err}
use postgrust_sql.Core.Error.{io}
use postgrust_sql.Core.Row.{Row, mark_deleted}
use postgrust_sql.Storage.Bytes.{write, length-write, read-write}
use postgrust_sql.Storage.Page.{
  can_fit, insert_row, Page, Slot, Bincode, failed, page_size, slot_at, read_slot, get_row,
  update_row, delete_row, overwrite, map_err,
}
use postgrust_sql.Storage.Page.Layout.{
  pushed, pushed-IsValid, IsValid, Laid-bounds, Laid-disjoint, Laid-set,
}
use postgrust_sql.Storage.Page.Rows.{
  inserted, at_slot, row_of, get_row-row_of, read_slot-write, read_slot_of,
}

-- a page with other bytes and one slot changed in place
changed : Page → ℕ → Slot → List ℕ → Page
changed p i slot bytes = record p { slots = set p.slots i slot; bytes = bytes }

changed-IsValid :
    (p : Page) (i : ℕ) (slot slot' : Slot) (bytes : List ℕ)
    → IsValid p
    → get_elem? p.slots i ≡ some slot
    → slot'.offset ≡ slot.offset
    → slot'.length ≤ slot.length
    → length bytes ≡ length p.bytes
    → IsValid (changed p i slot' bytes)
unfolding changed
changed-IsValid p i slot slot' bytes v e o n same =
    let (l, b) = Laid-set page_size p.slots i slot slot' v.laid e o n in
    record {
      full_size = same ∙ v.full_size;
      counted = v.counted ∙ sym (length-set p.slots i slot');
      slots_above = omega (arith, v.slots_above, length-set {0} p.slots i slot');
      apart = v.apart;
      lowest = v.lowest ∙ sym b;
      laid = l;
    }

module _ {V : Type 0} (codec : Bincode V) (p : Page) (i : ℕ) (slot : Slot) (v : IsValid p)
    (e : get_elem? p.slots i ≡ some slot) where
  open codec use {serialize_row}

  get_row-changed_ne :
      (j : ℕ) (slot' : Slot) (bytes : List ℕ)
      → j ≢ i
      → ((t : Slot)
          → get_elem? p.slots j ≡ some t
          → read_slot codec (changed p i slot' bytes) t ≡ read_slot codec p t)
      → get_row codec (changed p i slot' bytes) j ≡ get_row codec p j
  unfolding changed
  get_row-changed_ne j slot' bytes other reads =
      let there : get_elem? (set p.slots i slot') j ≡ get_elem? p.slots j =
        ground (arith, get_elem?-set p.slots i j slot') in
      get_row-row_of codec (changed p i slot' bytes) j
      ∙ ap (row_of codec (changed p i slot' bytes)) there
      ∙ by_slot (get_elem? p.slots j) refl
      ∙ sym (get_row-row_of codec p j)
    where
      by_slot :
          (o : Option Slot)
          → get_elem? p.slots j ≡ o
          → row_of codec (changed p i slot' bytes) o ≡ row_of codec p o
      by_slot none h = refl
      by_slot (some t) h = reads t h

  slot_changed : (slot' : Slot) → get_elem? (set p.slots i slot') i ≡ some slot'
  slot_changed slot' =
      ground (arith, get_elem?-set p.slots i i slot', get_elem?-lt {0} p.slots i slot e)

  -- On a page that is well laid out, deleting the row of a slot that exists succeeds and keeps the
  -- layout: the slot number gives an error, every other slot number what it gave.
  pub delete_row_effect :
      (p' : Page) × (delete_row p i ≡ ok p')
      × IsValid p'
      × ((j : ℕ)
          → get_row codec p' j
            ≡ (if j == i then err (failed (io "Slot is not in use")) else get_row codec p j))
  unfolding delete_row changed read_slot
  delete_row_effect =
      let unused : Slot = record slot { is_used = false } in
      (
        changed p i unused p.bytes,
        ground (arith, e),
        changed-IsValid p i slot unused p.bytes v e refl (omega arith) refl,
        at_slot (get_row codec (changed p i unused p.bytes)) (get_row codec p) i
            (err (failed (io "Slot is not in use")))
            (get_row-row_of codec (changed p i unused p.bytes) i
              ∙ ap (row_of codec (changed p i unused p.bytes)) (slot_changed unused))
            (λ j other. get_row-changed_ne j unused p.bytes other (λ t h. refl)),
      )

  overwritten :
      (row : Row V) (bs : List ℕ)
      → serialize_row row ≡ ok bs
      → length bs ≤ slot.length
      → update_row codec p i row
        ≡ ok (true, changed p i (record slot { length = length bs }) (write slot.offset bs p.bytes))
  unfolding update_row overwrite changed slot_at
  overwritten row bs encoded fits =
      ground (arith, encoded, e, v.full_size, Laid-bounds page_size p.slots i slot v.laid e)

  -- On a page that is well laid out, an update of a slot in use by a row that is no longer than
  -- the slot succeeds in place: it keeps the layout, the slot gives what the new row's
  -- encoding decodes to, the row or an error, and every other slot number gives what it gave.
  pub update_row_fits :
      (row : Row V) (bs : List ℕ)
      → serialize_row row ≡ ok bs
      → slot.is_used ≡ true
      → length bs ≤ slot.length
      → (p' : Page) × (update_row codec p i row ≡ ok (true, p'))
        × IsValid p'
        × ((j : ℕ)
            → get_row codec p' j
              ≡ (if j == i then map_err (codec.deserialize_row bs) else get_row codec p j))
  unfolding changed
  update_row_fits row bs encoded used fits =
      let shorter : Slot = record slot { length = length bs } in
      let bytes : List ℕ = write slot.offset bs p.bytes in
      let inside : slot.offset + length bs ≤ length p.bytes =
        omega (arith, Laid-bounds page_size p.slots i slot v.laid e, v.full_size) in
      (
        changed p i shorter bytes,
        overwritten row bs encoded fits,
        changed-IsValid p i slot shorter bytes v e refl fits (length-write slot.offset bs p.bytes),
        at_slot (get_row codec (changed p i shorter bytes)) (get_row codec p) i
            (map_err (codec.deserialize_row bs))
            (get_row-row_of codec (changed p i shorter bytes) i
              ∙ ap (row_of codec (changed p i shorter bytes)) (slot_changed shorter)
              ∙ read_slot_of codec (changed p i shorter bytes) shorter bs used
                  (omega (arith, inside, length-write slot.offset bs p.bytes))
                  (read-write slot.offset bs p.bytes inside))
            (λ j other. get_row-changed_ne j shorter bytes other (λ t h.
              read_slot-write codec p (changed p i shorter bytes) t slot.offset bs refl
                (ground (arith, Laid-disjoint page_size p.slots j i t slot v.laid h e other)))),
      )

  -- A longer row is not stored: the call answers `false`, and the page is unchanged.
  pub update_row_too_long :
      (row : Row V) (bs : List ℕ)
      → serialize_row row ≡ ok bs
      → slot.length < length bs
      → update_row codec p i row ≡ ok (false, p)
  unfolding update_row overwrite slot_at
  update_row_too_long row bs encoded long = ground (arith, encoded, e)

-- A row that fits on a page that is well laid out, and that the mark of a deletion makes longer to
-- encode, as it does in `bincode`, cannot be marked in place: the insertion succeeds, the update by
-- the marked row answers `false`, and the page is left without the mark.
pub inserted_row_cannot_be_marked :
    {V : Type 0} (codec : Bincode V) (p : Page) (row : Row V) (tx : ℕ) (bs marked : List ℕ)
    → IsValid p
    → codec.serialize_row row ≡ ok bs
    → can_fit p (length bs) ≡ true
    → codec.serialize_row (mark_deleted row tx) ≡ ok marked
    → length bs < length marked
    → (p' : Page) × (insert_row codec p row ≡ ok (length p.slots, p'))
      × (update_row codec p' (length p.slots) (mark_deleted row tx) ≡ ok (false, p'))
inserted_row_cannot_be_marked codec p row tx bs marked v encoded fits marked_encoded longer =
    let slot : Slot = record {
      offset = p.header.upper - length bs;
      length = length bs;
      is_used = true;
    } in
    (
      pushed p bs,
      inserted codec p row bs encoded v fits,
      update_row_too_long codec (pushed p bs) (length p.slots) slot (pushed-IsValid p bs v fits)
          (ground (arith, get_elem?-append p.slots slot (length p.slots))) (mark_deleted row tx)
          marked marked_encoded longer,
    )
