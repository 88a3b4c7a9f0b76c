-- ===== src/Executor/Compare.antt =====
-- src/core/value.rs and src/executor/conditions.rs: equality and order of values. The comparisons
-- of floats and of the crates' types are parameters.
use Prim.Native.Nat.{Ordering}
use Prim.Native.Char.{code}
use Prim.Native.String.{String, compare}
use postgrust_sql.Prelude.{
  ℕ, zero, suc, ◌+◌, ◌-◌, ◌*◌, ◌^◌, Bool, true, false, ◌&&◌, Option, none, some, List, [], ◌∷◌, ltb,
  leb, nat_beq, ◌==◌, string_eq, if◌then◌else◌,
}
use postgrust_sql.Prelude.Int.{ℤ, pos, negsuc}
use postgrust_sql.Prelude.Result.{ok, err}
use postgrust_sql.Core.Error.{DbResult, type_mismatch}
use postgrust_sql.Core.Value.{
  Externals, Value, null, small_int, integer, real, numeric, char, boolean, date, timestamp,
  timestamp_tz, uuid, json, bytea, enum,
}

-- `PartialEq` and `PartialOrd` of `f64`, and `PartialEq` of the crates' types
pub record Comparisons (x : Externals) : Type 0 where
  pub real_eq : x.Real → x.Real → Bool
  pub real_gt : x.Real → x.Real → Bool
  pub real_lt : x.Real → x.Real → Bool
  pub decimal_eq : x.Decimal → x.Decimal → Bool
  pub date_eq : x.NaiveDate → x.NaiveDate → Bool
  pub timestamp_eq : x.NaiveDateTime → x.NaiveDateTime → Bool
  pub timestamp_tz_eq : x.DateTimeUtc → x.DateTimeUtc → Bool
  pub uuid_eq : x.UuidBytes → x.UuidBytes → Bool

abbrev pub int_eq : ℤ → ℤ → Bool
int_eq (pos a) (pos b) = nat_beq a b
int_eq (negsuc a) (negsuc b) = nat_beq a b
int_eq _ _ = false

abbrev pub int_gt : ℤ → ℤ → Bool
int_gt (pos a) (pos b) = ltb b a
int_gt (pos a) (negsuc b) = true
int_gt (negsuc a) (pos b) = false
int_gt (negsuc a) (negsuc b) = ltb a b

abbrev pub int_lt : ℤ → ℤ → Bool
int_lt a b = int_gt b a

abbrev pub bool_eq : Bool → Bool → Bool
bool_eq true b = b
bool_eq false true = false
bool_eq false false = true

abbrev pub bytes_eq : List ℕ → List ℕ → Bool
bytes_eq [] [] = true
bytes_eq (a ∷ s) (b ∷ t) = nat_beq a b && bytes_eq s t
bytes_eq _ _ = false

-- the order of `String`, that of the code points
abbrev pub text_gt : String → String → Bool
text_gt a b = elim (compare a b) [ Ordering.gt ↦ true | _ ↦ false ]

abbrev pub text_lt : String → String → Bool
text_lt a b = elim (compare a b) [ Ordering.lt ↦ true | _ ↦ false ]

-- the number that digits spell behind `n`
parse_digits : String → ℕ → Option ℕ
parse_digits String.[] n = some n
parse_digits (String.◌∷◌ c s) n =
    let rest = parse_digits s (n * 10 + (code c - b'0')) in
    if leb b'0' (code c) && leb (code c) b'9' then rest else none

-- at least one digit
parse_nat : String → Option ℕ
unfolding parse_digits
parse_nat String.[] = none
parse_nat (String.◌∷◌ c s) = parse_digits (String.◌∷◌ c s) 0

at_most : ℕ → Option ℕ → Option ℤ
at_most bound none = none
at_most bound (some n) = if leb n bound then some (pos n) else none

negated : ℕ → Option ℕ → Option ℤ
negated bound none = none
negated bound (some zero) = some (pos 0)
negated bound (some (suc n)) = if leb (suc n) bound then some (negsuc n) else none

-- `parse` of a signed type whose least value is `-half` and whose greatest is `half - 1`
unfoldable pub parse_int : ℕ → String → Option ℤ
unfolding parse_nat at_most negated
parse_int half String.[] = none
parse_int half (String.◌∷◌ c s) =
    if nat_beq (code c) b'-'
    then negated half (parse_nat s)
    else if nat_beq (code c) b'+'
    then at_most (half - 1) (parse_nat s)
    else at_most (half - 1) (parse_nat (String.◌∷◌ c s))

module _ {x : Externals} (cmp : Comparisons x) where
  -- the derived `PartialEq`
  unfoldable pub value_eq : Value x → Value x → Bool
  value_eq null null = true
  value_eq (small_int a) (small_int b) = int_eq a b
  value_eq (integer a) (integer b) = int_eq a b
  value_eq (real a) (real b) = cmp.real_eq a b
  value_eq (numeric a) (numeric b) = cmp.decimal_eq a b
  value_eq (Value.text a) (Value.text b) = a == b
  value_eq (char a) (char b) = a == b
  value_eq (boolean a) (boolean b) = bool_eq a b
  value_eq (date a) (date b) = cmp.date_eq a b
  value_eq (timestamp a) (timestamp b) = cmp.timestamp_eq a b
  value_eq (timestamp_tz a) (timestamp_tz b) = cmp.timestamp_tz_eq a b
  value_eq (uuid a) (uuid b) = cmp.uuid_eq a b
  value_eq (json a) (json b) = a == b
  value_eq (bytea a) (bytea b) = bytes_eq a b
  value_eq (enum n a) (enum m b) = (n == m) && (a == b)
  value_eq _ _ = false

  -- `map(test).or(Err(TypeMismatch))`
  abbrev pub when_parsed : Option ℤ → (ℤ → Bool) → DbResult Bool
  when_parsed none test = err type_mismatch
  when_parsed (some n) test = ok (test n)

  unfoldable pub compare_greater_than : Value x → Value x → DbResult Bool
  unfolding parse_int
  compare_greater_than (integer a) (integer b) = ok (int_gt a b)
  compare_greater_than (small_int a) (small_int b) = ok (int_gt a b)
  compare_greater_than (real a) (real b) = ok (cmp.real_gt a b)
  compare_greater_than (Value.text a) (Value.text b) = ok (text_gt a b)
  compare_greater_than (integer a) (small_int b) = ok (int_gt a b)
  compare_greater_than (small_int a) (integer b) = ok (int_gt a b)
  compare_greater_than (small_int a) (Value.text b) =
      when_parsed (parse_int (2 ^ 15) b) (λ n. int_gt a n)
  compare_greater_than (integer a) (Value.text b) =
      when_parsed (parse_int (2 ^ 63) b) (λ n. int_gt a n)
  compare_greater_than (Value.text a) (small_int b) =
      when_parsed (parse_int (2 ^ 15) a) (λ n. int_gt n b)
  compare_greater_than (Value.text a) (integer b) =
      when_parsed (parse_int (2 ^ 63) a) (λ n. int_gt n b)
  compare_greater_than _ _ = err type_mismatch

  unfoldable pub compare_less_than : Value x → Value x → DbResult Bool
  unfolding parse_int
  compare_less_than (integer a) (integer b) = ok (int_lt a b)
  compare_less_than (small_int a) (small_int b) = ok (int_lt a b)
  compare_less_than (real a) (real b) = ok (cmp.real_lt a b)
  compare_less_than (Value.text a) (Value.text b) = ok (text_lt a b)
  compare_less_than (integer a) (small_int b) = ok (int_lt a b)
  compare_less_than (small_int a) (integer b) = ok (int_lt a b)
  compare_less_than (small_int a) (Value.text b) =
      when_parsed (parse_int (2 ^ 15) b) (λ n. int_lt a n)
  compare_less_than (integer a) (Value.text b) =
      when_parsed (parse_int (2 ^ 63) b) (λ n. int_lt a n)
  compare_less_than (Value.text a) (small_int b) =
      when_parsed (parse_int (2 ^ 15) a) (λ n. int_lt n b)
  compare_less_than (Value.text a) (integer b) =
      when_parsed (parse_int (2 ^ 63) a) (λ n. int_lt n b)
  compare_less_than _ _ = err type_mismatch
