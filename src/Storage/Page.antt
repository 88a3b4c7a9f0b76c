-- ===== src/Storage/Page.antt =====
-- src/storage/page.rs: a page of 8 KB with a header, slots that grow upwards and rows that grow
-- downwards. The encoding of rows and headers, by the crate `bincode`, is a parameter.
pub mod Layout
pub mod Rows
pub mod Changes
pub mod Scan
use Prim.Native.Nat.{◌-◌}
use postgrust_sql.Prelude.{
  ℕ, zero, suc, ◌+◌, ◌%◌, ◌^◌, String, ◌≡◌, ◌↔◌, ◌&&◌, Bool, true, false, not, Option, none, some,
  List, [], ◌∷◌, ◌++◌, length, get_elem?, set, replicate, leb, nat_beq, Eq, if◌then◌else◌, arith,
}
use postgrust_sql.Prelude.Result.{Result, ok, err, ◌>>=◌}
use postgrust_sql.Core.Error.{DatabaseError, io, binary_serialization}
use postgrust_sql.Core.Row.{Row}
use postgrust_sql.Storage.Bytes.{write, read}

abbrev pub page_size : ℕ
page_size = 8192

pub record PageId : Type 0 where
  pub table_id : ℕ
  pub page_number : ℕ

abbrev pub page_id_beq : PageId → PageId → Bool
page_id_beq a b = nat_beq a.table_id b.table_id && nat_beq a.page_number b.page_number

pub page_id_beq_iff : (a b : PageId) → (page_id_beq a b ≡ true) ↔ (a ≡ b)
page_id_beq_iff a b = ground arith

instance abbrev pub page_id_eq : Eq PageId
page_id_eq = record { beq = page_id_beq; beq_iff = page_id_beq_iff }

pub record Slot : Type 0 where
  pub offset : ℕ
  pub length : ℕ
  pub is_used : Bool

-- `size_of::<Slot>()`: two u16 and a bool, aligned to 2
abbrev pub slot_size : ℕ
slot_size = 6

pub record PageHeader : Type 0 where
  pub page_id : PageId
  pub free_space : ℕ
  pub slot_count : ℕ
  pub lower : ℕ
  pub upper : ℕ
  pub checksum : ℕ

-- `size_of::<PageHeader>()`: three u32 and four u16
abbrev pub header_size : ℕ
header_size = 20

unfoldable pub new_header : PageId → PageHeader
new_header page_id = record {
  page_id = page_id;
  free_space = page_size - header_size;
  slot_count = 0;
  lower = header_size;
  upper = page_size;
  checksum = 0;
}

pub record Page : Type 0 where
  pub header : PageHeader
  pub slots : List Slot
  pub bytes : List ℕ

-- A call of the program's functions may return an error or stop with a panic.
pub data Fault : Type 0 where
  failed : DatabaseError → Fault
  panicked : Fault

-- `bincode` on rows and page headers: a header of three u32 and four u16 takes 20 bytes. Nothing is
-- said of the decoding of rows, since not every row that is encoded is decoded.
pub record Bincode (V : Type 0) : Type 0 where
  pub serialize_row : Row V → Result String (List ℕ)
  pub deserialize_row : List ℕ → Result String (Row V)
  pub serialize_header : PageHeader → List ℕ
  pub header_length : (h : PageHeader) → length (serialize_header h) ≡ 20

-- The encoding of the row, where it has one, decodes to it. In the program this does not hold of a row
-- with a NUMERIC value.
abbrev pub Decodes : {V : Type 0} → Bincode V → Row V → Type 0
Decodes codec r = (bs : List ℕ) → codec.serialize_row r ≡ ok bs → codec.deserialize_row bs ≡ ok r

-- `map_err(|e| DatabaseError::BinarySerialization(e.to_string()))`
abbrev pub map_err {ℓ} : {A : Type ℓ} → Result String A → Result Fault A
map_err (ok a) = ok a
map_err (err e) = err (failed (binary_serialization e))

unfoldable pub free_space : Page → ℕ
free_space p = p.header.upper - p.header.lower

unfoldable pub can_fit : Page → ℕ → Bool
unfolding free_space
can_fit p row_size = leb (row_size + slot_size) (free_space p)

-- the page after the bytes of a row were stored below `upper`; the first test is the slice bound
unfoldable pub store_row : Page → List ℕ → Result Fault (ℕ × Page)
unfolding free_space
store_row p row_bytes =
    let row_size = length row_bytes in
    let new_upper = p.header.upper - row_size % 2 ^ 16 in
    let lower = (p.header.lower + slot_size) % 2 ^ 16 in
    if not (leb (new_upper + row_size) (length p.bytes))
    then err panicked
    else ok (
      length p.slots % 2 ^ 16,
      record p {
        header = record p.header {
          slot_count = (p.header.slot_count + 1) % 2 ^ 16;
          upper = new_upper;
          lower = lower;
          free_space = new_upper - lower;
        };
        slots =
            p.slots
            ++ record { offset = new_upper; length = row_size % 2 ^ 16; is_used = true } ∷ [];
        bytes = write new_upper row_bytes p.bytes;
      },
    )

unfoldable pub slot_at : Page → ℕ → Result Fault Slot
slot_at p slot_index = elim (get_elem? p.slots slot_index) [
  | none ↦ err (failed (io "Invalid slot index"))
  | some slot ↦ ok slot
]

unfoldable pub delete_row : Page → ℕ → Result Fault Page
unfolding slot_at
delete_row p slot_index = do
  slot ← slot_at p slot_index
  ok (record p { slots = set p.slots slot_index (record slot { is_used = false }) })

-- what `update_row` does at the slot with the encoded row
unfoldable pub overwrite : Page → ℕ → Slot → List ℕ → Result Fault (Bool × Page)
overwrite p slot_index slot row_bytes =
    if leb (length row_bytes) slot.length
    then if not (leb (slot.offset + length row_bytes) (length p.bytes))
      then err panicked
      else ok (
        true,
        record p {
          bytes = write slot.offset row_bytes p.bytes;
          slots = set p.slots slot_index (record slot { length = length row_bytes % 2 ^ 16 });
        },
      )
    else ok (false, p)

module _ {V : Type 0} (codec : Bincode V) where
  open codec use {serialize_row, deserialize_row, serialize_header}

  unfoldable pub new : PageId → Page
  unfolding new_header
  new page_id = record {
    header = new_header page_id;
    slots = [];
    bytes = write 0 (serialize_header (new_header page_id)) (replicate page_size 0);
  }

  unfoldable pub insert_row : Page → Row V → Result Fault (ℕ × Page)
  insert_row p row = map_err (serialize_row row) >>= λ row_bytes.
      if not (can_fit p (length row_bytes))
      then err (failed (io "Page is full"))
      else store_row p row_bytes

  unfoldable pub read_slot : Page → Slot → Result Fault (Row V)
  read_slot p slot =
      if not slot.is_used
      then err (failed (io "Slot is not in use"))
      else if not (leb (slot.offset + slot.length) (length p.bytes))
      then err panicked
      else map_err (deserialize_row (read slot.offset slot.length p.bytes))

  unfoldable pub get_row : Page → ℕ → Result Fault (Row V)
  unfolding slot_at read_slot
  get_row p slot_index = do slot ← slot_at p slot_index; read_slot p slot

  unfoldable pub update_row : Page → ℕ → Row V → Result Fault (Bool × Page)
  unfolding slot_at
  update_row p slot_index new_row = do
    row_bytes ← map_err (serialize_row new_row)
    slot ← slot_at p slot_index
    overwrite p slot_index slot row_bytes

  -- `.ok()` drops an error, and a panic goes on
  unfoldable pub kept :
      Result Fault (Row V) → Result Fault (List (Row V)) → Result Fault (List (Row V))
  kept (ok row) rest = do rows ← rest; ok (row ∷ rows)
  kept (err (failed e)) rest = rest
  kept (err panicked) rest = err panicked

  -- the iteration over the slots from number `i` on
  unfoldable pub rows_from : Page → ℕ → List Slot → Result Fault (List (Row V))
  unfolding kept
  rows_from p i [] = ok []
  rows_from p i (slot ∷ slots) =
      let rest = rows_from p (i + 1) slots in
      if slot.is_used then kept (get_row p (i % 2 ^ 16)) rest else rest

  unfoldable pub get_all_rows : Page → Result Fault (List (Row V))
  get_all_rows p = rows_from p 0 p.slots
