-- ===== src/Core/Table.antt =====
-- src/core/data_type.rs, constraints.rs, column.rs and table.rs.
use postgrust_sql.Prelude.{
  ℕ, suc, String, Bool, true, false, Option, none, some, List, [], ◌∷◌, ◌++◌, length, nat_beq, not,
  ◌==◌, string_eq, if◌then◌else◌,
}
use postgrust_sql.Prelude.Int.{ℤ, pos}
use postgrust_sql.Prelude.Map
use postgrust_sql.Prelude.Map.{Map}
use postgrust_sql.Prelude.Result.{ok, err}
use postgrust_sql.Core.Error.{DbResult, column_count_mismatch}
use postgrust_sql.Core.Row.{Row}

pub data DataType : Type 0 where
  small_int integer real : DataType
  numeric : ℕ → ℕ → DataType
  serial big_serial text : DataType
  varchar : ℕ → DataType
  char : ℕ → DataType
  boolean date timestamp timestamp_tz uuid json jsonb bytea : DataType
  enum : String → List String → DataType

pub record ForeignKey : Type 0 where
  pub referenced_table : String
  pub referenced_column : String

pub record Column : Type 0 where
  pub name : String
  pub data_type : DataType
  pub nullable : Bool
  pub primary_key : Bool
  pub unique : Bool
  pub foreign_key : Option ForeignKey

pub record Table (V : Type 0) : Type 0 where
  pub name : String
  pub columns : List Column
  pub rows : List (Row V)
  pub sequences : Map String ℤ
  pub owner : String

-- `matches!(col.data_type, DataType::Serial | DataType::BigSerial)`
unfoldable pub is_serial : DataType → Bool
is_serial serial = true
is_serial big_serial = true
is_serial _ = false

-- the loop over the columns
start_sequences : List Column → Map String ℤ → Map String ℤ
unfolding is_serial
start_sequences [] m = m
start_sequences (c ∷ cs) m =
    start_sequences cs (if is_serial c.data_type then Map.insert m c.name (pos 1) else m)

unfoldable pub position : String → List Column → Option ℕ
position name [] = none
position name (c ∷ cs) =
    let rest = position name cs in
    if c.name == name then some 0 else elim rest [ none ↦ none | some i ↦ some (suc i) ]

module _ {V : Type 0} where
  unfoldable pub new_with_owner : String → List Column → String → Table V
  unfolding start_sequences
  new_with_owner name columns owner = record {
    name = name;
    columns = columns;
    rows = [];
    sequences = start_sequences columns [];
    owner = owner;
  }

  unfoldable pub new : String → List Column → Table V
  unfolding new_with_owner
  new name columns = new_with_owner name columns "postgres"

  unfoldable pub insert : Table V → Row V → DbResult (Table V)
  insert t row =
      if not (nat_beq (length row.values) (length t.columns))
      then err column_count_mismatch
      else ok (record t { rows = t.rows ++ row ∷ [] })

  unfoldable pub get_column_index : Table V → String → Option ℕ
  unfolding position
  get_column_index t name = position name t.columns
