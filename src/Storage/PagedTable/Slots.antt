-- ===== src/Storage/PagedTable/Slots.antt =====
-- The slots that VACUUM finds on one page, and the page without their rows.
use postgrust_sql.Prelude.{
  ℕ, String, suc, ◌%◌, ◌^◌, ◌≡◌, ◌≢◌, refl, sym, ap, ◌∙◌, inl, inr, Bool, false, some, List, [],
  ◌∷◌, ◌++◌, length, get_elem?, set, arith, if◌then◌else◌, subst, Bool-cases, append_assoc,
  length-append,
}
use mathlib.Core.List.{reverse, reverse-cons}
use postgrust_sql.Prelude.Result.{Result, ok, err, ◌>>=◌}
use postgrust_sql.Core.Row.{Row, is_dead}
use postgrust_sql.Storage.Bytes
use postgrust_sql.Storage.Page.{
  Page, Slot, Bincode, Fault, failed, panicked, page_size, read_slot, get_row, delete_row, slot_at,
  map_err,
}
use postgrust_sql.Storage.Page.Layout.{IsValid, Laid-bounds}
use postgrust_sql.Storage.Page.Rows.{row_of, get_row-row_of}
use postgrust_sql.Storage.Page.Scan.{get_elem?-behind, slots-lt}
use postgrust_sql.Storage.TablePage.{if_dead, dead_slots, delete_rows}

pub set-behind :
    {A : Type 0} (front : List A) (x y : A) (back : List A)
    → set (front ++ x ∷ back) (length front) y ≡ front ++ y ∷ back
set-behind [] x y back = refl
set-behind (z ∷ front) x y back = ap (λ l. z ∷ l) (set-behind front x y back)

delete_rows-append :
    (xs ys : List ℕ) (p : Page) → delete_rows (xs ++ ys) p ≡ (delete_rows xs p >>= delete_rows ys)
unfolding delete_rows
delete_rows-append [] ys p = refl
delete_rows-append (x ∷ xs) ys p = by_page (delete_row p x) (delete_rows-append xs ys)
  where
    by_page :
        (o : Result Fault Page)
        → ((q : Page) → delete_rows (xs ++ ys) q ≡ (delete_rows xs q >>= delete_rows ys))
        → (o >>= λ q. delete_rows (xs ++ ys) q) ≡ ((o >>= λ q. delete_rows xs q) >>= delete_rows ys)
    by_page (err e) more = refl
    by_page (ok q) more = more q

pub delete_row-behind :
    (p : Page) (front : List Slot) (s : Slot) (back : List Slot)
    → delete_row (record p { slots = front ++ s ∷ back }) (length front)
      ≡ ok (record p { slots = front ++ record s { is_used = false } ∷ back })
unfolding delete_row slot_at
delete_row-behind p front s back =
    ground
      (arith, get_elem?-behind front s back, set-behind front s (record s { is_used = false }) back)

pub length-snoc :
    {A : Type 0} (front : List A) (x : A) → length (front ++ x ∷ []) ≡ suc (length front)
length-snoc front x = omega (arith, length-append {0} front (x ∷ []))

pub map_err-NoPanic : {A : Type 0} (o : Result String A) → map_err o ≢ err panicked
map_err-NoPanic (ok a) = cc
map_err-NoPanic (err e) = cc

module _ {V : Type 0} (codec : Bincode V) (oldest : ℕ) where
  abbrev pub dead_result : Result Fault (Row V) → Bool
  dead_result (ok row) = is_dead row oldest
  dead_result (err e) = false

  -- whether the slot reads a dead row
  abbrev pub dead_slot : Page → Slot → Bool
  dead_slot p slot = dead_result (read_slot codec p slot)

  abbrev pub dead_numbers : Page → ℕ → List Slot → List ℕ
  dead_numbers p i [] = []
  dead_numbers p i (s ∷ slots) =
      let rest = dead_numbers p (suc i) slots in if dead_slot p s then i ∷ rest else rest

  abbrev pub swept : Page → List Slot → List Slot
  swept p [] = []
  swept p (s ∷ slots) =
      record s { is_used = if dead_slot p s then false else s.is_used } ∷ swept p slots

  pub read_slot-NoPanic :
      (p : Page) (i : ℕ) (slot : Slot)
      → IsValid p
      → get_elem? p.slots i ≡ some slot
      → read_slot codec p slot ≢ err panicked
  unfolding read_slot
  read_slot-NoPanic p i slot v e h = ground (
    arith,
    h,
    Laid-bounds page_size p.slots i slot v.laid e,
    v.full_size,
    map_err-NoPanic (codec.deserialize_row (Bytes.read slot.offset slot.length p.bytes)),
  )

  if_dead-lem :
      (i : ℕ) (r : Result Fault (Row V)) (rest : List ℕ)
      → r ≢ err panicked
      → if_dead codec oldest i r (ok rest) ≡ ok (if dead_result r then i ∷ rest else rest)
  if_dead-lem i (ok row) rest h = refl
  if_dead-lem i (err (failed e)) rest h = refl
  if_dead-lem i (err panicked) rest h = absurd (h refl)

  pub dead_slots-lem :
      (p : Page) (front slots : List Slot)
      → IsValid p
      → p.slots ≡ front ++ slots
      → dead_slots codec oldest (length front) (length slots) p
        ≡ ok (dead_numbers p (length front) slots)
  unfolding dead_slots
  dead_slots-lem p front [] v e = refl
  dead_slots-lem p front (s ∷ slots) v e =
      let here : length front % 2 ^ 16 ≡ length front =
        omega (arith, slots-lt p v, ap (λ l. length l) e, length-append {0} front (s ∷ slots)) in
      let there : get_elem? p.slots (length front) ≡ some s =
        ap (λ l. get_elem? l (length front)) e ∙ get_elem?-behind front s slots in
      let more : dead_slots codec oldest (suc (length front)) (length slots) p
          ≡ ok (dead_numbers p (suc (length front)) slots) =
        subst (λ n. dead_slots codec oldest n (length slots) p ≡ ok (dead_numbers p n slots))
          (length-snoc front s)
          (dead_slots-lem p (front ++ s ∷ []) slots v
            (e ∙ sym (append_assoc front (s ∷ []) slots))) in
      ap
        (λ n.
          if_dead codec oldest n (get_row codec p n)
            (dead_slots codec oldest (suc (length front)) (length slots) p))
        here
      ∙ ap
          (λ r.
            if_dead codec oldest (length front) r
              (dead_slots codec oldest (suc (length front)) (length slots) p))
          (get_row-row_of codec p (length front) ∙ ap (row_of codec p) there)
      ∙ ap (if_dead codec oldest (length front) (read_slot codec p s)) more
      ∙ if_dead-lem (length front) (read_slot codec p s) (dead_numbers p (suc (length front)) slots)
          (read_slot-NoPanic p (length front) s v there)

  pub delete_rows-swept :
      (p : Page) (front slots : List Slot)
      → p.slots ≡ front ++ slots
      → delete_rows (reverse (dead_numbers p (length front) slots)) p
        ≡ ok (record p { slots = front ++ swept p slots })
  unfolding delete_rows delete_row
  delete_rows-swept p front [] e = ap (λ l. ok (record p { slots = l })) e
  delete_rows-swept p front (s ∷ slots) e =
      let more : delete_rows (reverse (dead_numbers p (suc (length front)) slots)) p
          ≡ ok (record p { slots = front ++ s ∷ swept p slots }) =
        subst
          (λ n.
            delete_rows (reverse (dead_numbers p n slots)) p
            ≡ ok (record p { slots = front ++ s ∷ swept p slots }))
          (length-snoc front s)
          (delete_rows-swept p (front ++ s ∷ []) slots (e ∙ sym (append_assoc front (s ∷ []) slots))
            ∙ ap (λ l. ok (record p { slots = l }))
                (append_assoc front (s ∷ []) (swept p slots))) in
      elim (Bool-cases (dead_slot p s)) [
        | inl dead ↦ rw (dead) (
            ap (λ l. delete_rows l p)
              (reverse-cons (length front) (dead_numbers p (suc (length front)) slots))
            ∙ delete_rows-append (reverse (dead_numbers p (suc (length front)) slots))
                (length front ∷ []) p
            ∙ ap (λ o. o >>= delete_rows (length front ∷ [])) more
            ∙ ap (λ o. o >>= λ q. ok q) (delete_row-behind p front s (swept p slots)))
        | inr not_dead ↦ rw (not_dead) more
      ]
