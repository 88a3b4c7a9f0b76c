-- ===== src/Storage/Page/Layout.antt =====
-- The layout of a page: rows lie one below the other from the end of the page downwards, in the
-- order of their slots, above the header and the slots.
use postgrust_sql.Prelude.{
  true, sym, subst, ap, ◌∙◌, ◌-◌, replicate, ℕ, zero, suc, ◌+◌, ◌*◌, ◌≤◌, ◌≡◌, ◌≢◌, ◌⊎◌, refl, some,
  List, [], ◌∷◌, ◌++◌, length, get_elem?, set, arith, length-append, length-replicate,
}
use postgrust_sql.Prelude.Result.{ok}
use postgrust_sql.Storage.Bytes.{write, length-write}
use postgrust_sql.Storage.Page.{
  Page, PageId, Slot, Bincode, page_size, header_size, slot_size, new, new_header, can_fit,
  free_space, store_row,
}

-- Rows from `top` downwards, each below the one before.
abbrev pub Laid : ℕ → List Slot → Type 0
Laid top [] = Unit
Laid top (s ∷ slots) = (s.offset + s.length ≤ top) × Laid s.offset slots

-- where the last row begins
abbrev pub bottom : ℕ → List Slot → ℕ
bottom top [] = top
bottom top (s ∷ slots) = bottom s.offset slots

pub record IsValid (p : Page) : Type 0 where
  pub full_size : length p.bytes ≡ page_size
  pub counted : p.header.slot_count ≡ length p.slots
  pub slots_above : p.header.lower ≡ header_size + slot_size * length p.slots
  pub apart : p.header.lower ≤ p.header.upper
  pub lowest : p.header.upper ≡ bottom page_size p.slots
  pub laid : Laid page_size p.slots

pub bottom-le : (top : ℕ) (slots : List Slot) → Laid top slots → bottom top slots ≤ top
bottom-le top [] l = omega arith
bottom-le top (s ∷ slots) l = omega (arith, bottom-le s.offset slots l.1, l.0)

pub Laid-snoc :
    (top : ℕ) (slots : List Slot) (s : Slot)
    → Laid top slots
    → s.offset + s.length ≤ bottom top slots
    → Laid top (slots ++ s ∷ []) × (bottom top (slots ++ s ∷ []) ≡ s.offset)
Laid-snoc top [] s l h = ((h, tt), refl)
Laid-snoc top (t ∷ slots) s l h = let (l', b) = Laid-snoc t.offset slots s l.1 h in ((l.0, l'), b)

-- Every row lies between the bottom and the top.
pub Laid-bounds :
    (top : ℕ) (slots : List Slot) (i : ℕ) (s : Slot)
    → Laid top slots
    → get_elem? slots i ≡ some s
    → (bottom top slots ≤ s.offset) × (s.offset + s.length ≤ top)
Laid-bounds top [] i s l e = ground arith
Laid-bounds top (t ∷ slots) zero s l e = ground (arith, bottom-le t.offset slots l.1, l.0)
Laid-bounds top (t ∷ slots) (suc i) s l e = omega (arith, Laid-bounds t.offset slots i s l.1 e, l.0)

-- Two rows do not overlap.
pub Laid-disjoint :
    (top : ℕ) (slots : List Slot) (i j : ℕ) (s t : Slot)
    → Laid top slots
    → get_elem? slots i ≡ some s
    → get_elem? slots j ≡ some t
    → i ≢ j
    → (s.offset + s.length ≤ t.offset) ⊎ (t.offset + t.length ≤ s.offset)
Laid-disjoint top [] i j s t l e f n = ground arith
Laid-disjoint top (r ∷ slots) zero zero s t l e f n = absurd (n refl)
Laid-disjoint top (r ∷ slots) zero (suc j) s t l e f n =
    ground (arith, Laid-bounds r.offset slots j t l.1 f)
Laid-disjoint top (r ∷ slots) (suc i) zero s t l e f n =
    ground (arith, Laid-bounds r.offset slots i s l.1 e)
Laid-disjoint top (r ∷ slots) (suc i) (suc j) s t l e f n =
    Laid-disjoint r.offset slots i j s t l.1 e f (λ q. n (omega arith))

-- A slot may shrink, or be marked unused.
pub Laid-set :
    (top : ℕ) (slots : List Slot) (i : ℕ) (s s' : Slot)
    → Laid top slots
    → get_elem? slots i ≡ some s
    → s'.offset ≡ s.offset
    → s'.length ≤ s.length
    → Laid top (set slots i s') × (bottom top (set slots i s') ≡ bottom top slots)
Laid-set top [] i s s' l e o n = ground arith
Laid-set top (t ∷ slots) zero s s' l e o n =
    let same : s'.offset ≡ t.offset = ground arith in
    ((ground (arith, l.0), subst (λ k. Laid k slots) (sym same) l.1), ap (λ k. bottom k slots) same)
Laid-set top (t ∷ slots) (suc i) s s' l e o n =
    let (l', b) = Laid-set t.offset slots i s s' l.1 e o n in ((l.0, l'), b)

module _ {V : Type 0} (codec : Bincode V) where
  -- A new page is well laid out.
  pub new-IsValid : (id : PageId) → IsValid (new codec id)
  unfolding new new_header
  new-IsValid id = record {
    full_size =
        length-write 0 (codec.serialize_header (new_header id)) (replicate page_size 0)
        ∙ length-replicate {A = ℕ} page_size 0;
    counted = refl;
    slots_above = refl;
    apart = omega arith;
    lowest = refl;
    laid = tt;
  }

-- the page with one more row, without the wrap-around of the 16-bit fields
abbrev pub pushed : Page → List ℕ → Page
pushed p row_bytes =
    let new_upper = p.header.upper - length row_bytes in
    let lower = p.header.lower + slot_size in
    record p {
      header = record p.header {
        slot_count = p.header.slot_count + 1;
        upper = new_upper;
        lower = lower;
        free_space = new_upper - lower;
      };
      slots =
          p.slots ++ record { offset = new_upper; length = length row_bytes; is_used = true } ∷ [];
      bytes = write new_upper row_bytes p.bytes;
    }

module _ (p : Page) (row_bytes : List ℕ) (v : IsValid p)
    (fits : can_fit p (length row_bytes) ≡ true) where
  pub room : p.header.lower + slot_size + length row_bytes ≤ p.header.upper
  unfolding can_fit free_space
  room = ground arith

  pub upper-le : p.header.upper ≤ page_size
  upper-le = omega (arith, v.lowest, bottom-le page_size p.slots v.laid)

  -- A row that fits is stored without a panic, and the 16-bit fields do not wrap.
  pub store_row-pushed : store_row p row_bytes ≡ ok (length p.slots, pushed p row_bytes)
  unfolding store_row
  store_row-pushed = ground (arith, room, upper-le, v.counted, v.slots_above, v.full_size)

  pub pushed-IsValid : IsValid (pushed p row_bytes)
  pushed-IsValid =
      let (l, b) =
        Laid-snoc page_size p.slots
          (record {
            offset = p.header.upper - length row_bytes;
            length = length row_bytes;
            is_used = true;
          })
          v.laid (omega (arith, room, v.lowest)) in
      record {
        full_size =
            length-write (p.header.upper - length row_bytes) row_bytes p.bytes ∙ v.full_size;
        counted = omega (
          arith,
          v.counted,
          length-append {0} p.slots (
              record {
                offset = p.header.upper - length row_bytes;
                length = length row_bytes;
                is_used = true;
              }
              ∷ []),
        );
        slots_above = omega (
          arith,
          v.slots_above,
          length-append {0} p.slots (
              record {
                offset = p.header.upper - length row_bytes;
                length = length row_bytes;
                is_used = true;
              }
              ∷ []),
        );
        apart = omega (arith, room);
        lowest = sym b;
        laid = l;
      }
