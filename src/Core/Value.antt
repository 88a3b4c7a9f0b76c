-- ===== src/Core/Value.antt =====
-- src/core/value.rs: SQL values and their text. The types of the crates `chrono`, `uuid` and
-- `rust_decimal`, and `f64`, are parameters with the formatting functions that are called on them.
use Prim.Native.String.{◌++◌}
use postgrust_sql.Prelude.{ℕ, String, Bool, true, false, Option, none, some, List}
use postgrust_sql.Prelude.Int.{ℤ, show_int}

-- What the program takes from elsewhere: the payload types, their `Display` or `strftime` texts,
-- `{:020.10}` of a float, `hex::encode`, and the `Debug` texts of payloads.
pub record Externals : Type 1 where
  pub Real : Type 0
  pub Decimal : Type 0
  pub NaiveDate : Type 0
  pub NaiveDateTime : Type 0
  pub DateTimeUtc : Type 0
  pub UuidBytes : Type 0
  pub show_real : Real → String
  pub show_real_padded : Real → String
  pub show_decimal : Decimal → String
  pub show_date : NaiveDate → String
  pub show_timestamp : NaiveDateTime → String
  pub show_timestamp_tz : DateTimeUtc → String
  pub show_uuid : UuidBytes → String
  pub hex_encode : List ℕ → String
  pub debug_real : Real → String
  pub debug_uuid : UuidBytes → String
  pub debug_decimal : Decimal → String
  pub debug_date : NaiveDate → String
  pub debug_timestamp : NaiveDateTime → String
  pub debug_timestamp_tz : DateTimeUtc → String
  pub debug_text : String → String
  pub debug_bytes : List ℕ → String

pub data Value (x : Externals) : Type 0 where
  null : Value x
  small_int : ℤ → Value x
  integer : ℤ → Value x
  real : x.Real → Value x
  numeric : x.Decimal → Value x
  text : String → Value x
  char : String → Value x
  boolean : Bool → Value x
  date : x.NaiveDate → Value x
  timestamp : x.NaiveDateTime → Value x
  timestamp_tz : x.DateTimeUtc → Value x
  uuid : x.UuidBytes → Value x
  json : String → Value x
  bytea : List ℕ → Value x
  enum : String → String → Value x

unfoldable pub show_bool : Bool → String
show_bool true = "true"
show_bool false = "false"

module _ {x : Externals} where
  unfoldable pub as_int : Value x → Option ℤ
  as_int (integer i) = some i
  as_int _ = none

  unfoldable pub as_text : Value x → Option String
  as_text (text s) = some s
  as_text _ = none

  unfoldable pub as_bool : Value x → Option Bool
  as_bool (boolean b) = some b
  as_bool _ = none

  -- `impl Display for Value`
  unfoldable pub to_string : Value x → String
  unfolding show_bool show_int
  to_string null = "NULL"
  to_string (small_int i) = show_int i
  to_string (integer i) = show_int i
  to_string (real r) = x.show_real r
  to_string (numeric d) = x.show_decimal d
  to_string (text s) = s
  to_string (char s) = s
  to_string (boolean b) = show_bool b
  to_string (date d) = x.show_date d
  to_string (timestamp t) = x.show_timestamp t
  to_string (timestamp_tz t) = x.show_timestamp_tz t
  to_string (uuid u) = x.show_uuid u
  to_string (json j) = j
  to_string (bytea b) = "\\x" ++ x.hex_encode b
  to_string (enum name v) = v

  -- `{value:?}`
  unfoldable pub debug_value : Value x → String
  unfolding show_bool show_int
  debug_value null = "Null"
  debug_value (small_int i) = "SmallInt(" ++ (show_int i ++ ")")
  debug_value (integer i) = "Integer(" ++ (show_int i ++ ")")
  debug_value (real r) = "Real(" ++ (x.debug_real r ++ ")")
  debug_value (numeric d) = "Numeric(" ++ (x.debug_decimal d ++ ")")
  debug_value (text s) = "Text(" ++ (x.debug_text s ++ ")")
  debug_value (char s) = "Char(" ++ (x.debug_text s ++ ")")
  debug_value (boolean b) = "Boolean(" ++ (show_bool b ++ ")")
  debug_value (date d) = "Date(" ++ (x.debug_date d ++ ")")
  debug_value (timestamp t) = "Timestamp(" ++ (x.debug_timestamp t ++ ")")
  debug_value (timestamp_tz t) = "TimestampTz(" ++ (x.debug_timestamp_tz t ++ ")")
  debug_value (uuid u) = "Uuid(" ++ (x.debug_uuid u ++ ")")
  debug_value (json j) = "Json(" ++ (x.debug_text j ++ ")")
  debug_value (bytea b) = "Bytea(" ++ (x.debug_bytes b ++ ")")
  debug_value (enum name v) = "Enum(" ++ (x.debug_text name ++ (", " ++ (x.debug_text v ++ ")")))
