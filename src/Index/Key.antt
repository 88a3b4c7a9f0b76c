-- ===== src/Index/Key.antt =====
-- `IndexKey` of src/index/hash.rs and of src/index/btree.rs: keys are texts.
use Prim.Native.String.{◌++◌}
use postgrust_sql.Prelude.{String, List, [], ◌∷◌, map}
use postgrust_sql.Prelude.Int.{show_int_padded}
use postgrust_sql.Core.Value.{
  Externals, Value, null, small_int, integer, real, numeric, text, char, boolean, date, timestamp,
  timestamp_tz, uuid, json, bytea, enum, to_string, show_bool,
}

-- `parts.join("||")`
unfoldable pub join : List String → String
join [] = ""
join (p ∷ []) = p
join (p ∷ q ∷ ps) = p ++ ("||" ++ join (q ∷ ps))

module _ {x : Externals} where
  -- hash.rs: the `Display` text
  unfoldable pub hash_key : Value x → String
  hash_key v = to_string v

  unfoldable pub hash_composite_key : List (Value x) → String
  unfolding hash_key join
  hash_composite_key values = join (map hash_key values)

  -- btree.rs: a tag of the type, then a sortable text; the other types by their `Debug` text
  unfoldable pub btree_key : Value x → String
  unfolding show_int_padded show_bool
  btree_key (integer i) = "I" ++ show_int_padded 20 i
  btree_key (small_int i) = "S" ++ show_int_padded 20 i
  btree_key (text s) = "T" ++ s
  btree_key (char s) = "C" ++ s
  btree_key (boolean b) = "BOOL" ++ show_bool b
  btree_key (real f) = "R" ++ x.show_real_padded f
  btree_key null = "NULL"
  btree_key (uuid u) = "UUID" ++ x.show_uuid u
  btree_key (numeric d) = "Numeric(" ++ (x.debug_decimal d ++ ")")
  btree_key (date d) = "Date(" ++ (x.debug_date d ++ ")")
  btree_key (timestamp t) = "Timestamp(" ++ (x.debug_timestamp t ++ ")")
  btree_key (timestamp_tz t) = "TimestampTz(" ++ (x.debug_timestamp_tz t ++ ")")
  btree_key (json j) = "Json(" ++ (x.debug_text j ++ ")")
  btree_key (bytea b) = "Bytea(" ++ (x.debug_bytes b ++ ")")
  btree_key (enum name v) = "Enum(" ++ (x.debug_text name ++ (", " ++ (x.debug_text v ++ ")")))

  unfoldable pub btree_composite_key : List (Value x) → String
  unfolding btree_key join
  btree_composite_key values = join (map btree_key values)
