-- ===== src/Executor/Dml.antt =====
-- src/executor/dml.rs: the values of an INSERT before they are stored. A walk over the columns with
-- their indices is a walk over columns and values together.
pub mod Storage
pub mod Insert
pub mod Coercion
pub mod Uniqueness
pub mod Commit
pub mod Insertion
pub mod Sequences
pub mod Advance
pub mod Delete
pub mod Update
pub mod Endings
use Prim.Native.String.{String, ◌++◌, len, count}
use postgrust_sql.Prelude.{
  ℕ, zero, suc, ◌+◌, ◌-◌, Bool, true, false, ◌&&◌, ◌||◌, not, Option, none, some, List, [], ◌∷◌,
  length, replicate, set, get_elem?, any, leb, if◌then◌else◌, ◌==◌, string_eq,
}
use postgrust_sql.Prelude.Int.{ℤ, pos, show_nat}
use postgrust_sql.Prelude.Map.{Map, get}
use postgrust_sql.Prelude.Result.{Result, ok, err, ◌>>=◌}
use postgrust_sql.Core.Error.{DbResult, DatabaseError, parse_error, unique_violation}
use postgrust_sql.Core.Value
use postgrust_sql.Core.Value.{Externals, Value, null, integer, debug_value}
use postgrust_sql.Core.Row.{Row, is_visible}
use postgrust_sql.Core.Table
use postgrust_sql.Core.Table.{Column, DataType, varchar, is_serial}
use postgrust_sql.Storage.Page.{Fault, failed, panicked}
use postgrust_sql.Executor.Compare.{Comparisons, value_eq}
use postgrust_sql.Executor.Condition.{lift, indexed, get_column_index, is_null_value}

-- `unwrap_or(1)`
abbrev pub or_one : Option ℤ → ℤ
or_one none = pos 1
or_one (some n) = n

unfoldable pub too_long : String → ℕ → String → DatabaseError
too_long column size kind =
    parse_error ("Value too long for column '" ++ (column ++ ("': " ++ (show_nat size ++ kind))))

spaces : ℕ → String
spaces zero = ""
spaces (suc n) = " " ++ spaces n

-- `format!("{s:<length$}")`
unfoldable pub pad_right : ℕ → String → String
unfolding spaces
pad_right width s = s ++ spaces (width - count s)

joined : (String → String) → List String → String
joined show [] = ""
joined show (s ∷ []) = show s
joined show (s ∷ ss) = show s ++ (", " ++ joined show ss)

unfoldable pub not_in_enum : String → String → String → DatabaseError
not_in_enum value name rest =
    parse_error ("Invalid value '" ++ (value ++ ("' for ENUM type '" ++ (name ++ rest))))

module _ {x : Externals} where
  -- the walk over the given names and values
  place : List Column → List String → List (Value x) → List (Value x) → DbResult (List (Value x))
  place table_columns (name ∷ names) (value ∷ values) ordered = do
    idx ← get_column_index table_columns name
    place table_columns names values (set ordered idx value)
  place table_columns _ _ ordered = ok ordered

  unfoldable pub reorder_values :
      List Column → Option (List String) → List (Value x) → DbResult (List (Value x))
  unfolding place
  reorder_values table_columns none values = ok values
  reorder_values table_columns (some names) values =
      place table_columns names values (replicate (length table_columns) null)

  abbrev pub serial_value : Map String ℤ → Column → Value x → Value x
  serial_value sequences col null = integer (or_one (get sequences col.name))
  serial_value sequences col v = v

  unfoldable pub handle_serial_columns :
      List Column → Map String ℤ → List (Value x) → Result Fault (List (Value x))
  handle_serial_columns [] sequences values = ok values
  handle_serial_columns (col ∷ cols) sequences [] =
      if is_serial col.data_type then err panicked else handle_serial_columns cols sequences []
  handle_serial_columns (col ∷ cols) sequences (v ∷ values) = do
    rest ← handle_serial_columns cols sequences values
    ok ((if is_serial col.data_type then serial_value sequences col v else v) ∷ rest)

  abbrev pub padded : Column → ℕ → String → DbResult (Value x)
  padded col width s =
      if not (leb (len s) width)
      then err (too_long col.name (len s) (" exceeds CHAR(" ++ (show_nat width ++ ")")))
      else ok (Value.char (pad_right width s))

  abbrev pub in_enum : String → List String → String → String → DbResult (Value x)
  in_enum name values s rest =
      if any (λ v. v == s) values then ok (Value.enum name s) else err (not_in_enum s name rest)

  -- the checks of one column; an enum value keeps the name that it has
  unfoldable pub coerce : Column → DataType → Value x → DbResult (Value x)
  unfolding too_long pad_right joined not_in_enum
  coerce col (varchar max_length) (Value.text s) =
      if not (leb (len s) max_length)
      then err (too_long col.name (len s) (" exceeds VARCHAR(" ++ (show_nat max_length ++ ")")))
      else ok (Value.text s)
  coerce col (DataType.char width) (Value.text s) = padded col width s
  coerce col (DataType.char width) (Value.char s) = padded col width s
  coerce col (DataType.enum name values) (Value.text s) =
      in_enum name values s ("'. Expected one of: [" ++ (joined x.debug_text values ++ "]"))
  coerce col (DataType.enum name values) (Value.enum own s) =
      if any (λ v. v == s) values then ok (Value.enum own s) else err (not_in_enum s name "'")
  coerce col _ v = ok v

  unfoldable pub validate_and_coerce_types :
      List Column → List (Value x) → Result Fault (List (Value x))
  unfolding coerce
  validate_and_coerce_types [] values = ok values
  validate_and_coerce_types (col ∷ cols) [] = err panicked
  validate_and_coerce_types (col ∷ cols) (v ∷ values) = do
    first ← lift (coerce col col.data_type v)
    rest ← validate_and_coerce_types cols values
    ok (first ∷ rest)

  module _ (cmp : Comparisons x) where
    -- `all_rows.iter().any(..)`, which stops at the first hit
    unfoldable pub any_equal : List (Row (Value x)) → ℕ → ℕ → Value x → Result Fault Bool
    any_equal [] tx idx value = ok false
    any_equal (row ∷ rows) tx idx value =
        let rest = any_equal rows tx idx value in
        if is_visible row tx
        then (do
          v ← indexed (get_elem? row.values idx)
          if value_eq cmp v value then ok true else rest)
        else rest

    abbrev duplicate_value : Value x → String → Fault
    duplicate_value value column = failed (
        unique_violation (
          "UNIQUE constraint violation: value "
          ++ (debug_value value ++ (" already exists in column '" ++ (column ++ "'")))))

    -- the check of one column that is unique
    unfoldable pub check_unique :
        List (Row (Value x)) → ℕ → ℕ → Column → Value x → Result Fault (Unit {0})
    unfolding any_equal
    check_unique rows tx idx col null = ok tt
    check_unique rows tx idx col value = do
      exists ← any_equal rows tx idx value
      if exists then err (duplicate_value value col.name) else ok tt

    abbrev pub when_unique : Column → Result Fault (Unit {0}) → Result Fault (Unit {0})
    when_unique col check = if col.unique || col.primary_key then check else ok tt

    -- the walk from column number `idx` on
    unfoldable pub validate_unique_from :
        List (Row (Value x)) → ℕ → ℕ → List Column → List (Value x) → Result Fault (Unit {0})
    unfolding check_unique
    validate_unique_from rows tx idx [] values = ok tt
    validate_unique_from rows tx idx (col ∷ cols) [] = do
      _ ← when_unique col (err panicked)
      validate_unique_from rows tx (suc idx) cols []
    validate_unique_from rows tx idx (col ∷ cols) (v ∷ values) = do
      _ ← when_unique col (check_unique rows tx idx col v)
      validate_unique_from rows tx (suc idx) cols values
