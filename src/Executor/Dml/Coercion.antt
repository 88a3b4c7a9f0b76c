-- ===== src/Executor/Dml/Coercion.antt =====
-- What the checks of an INSERT establish of its values.
use Prim.Native.String.{String, len, count}
use Prim.Native.String.len.{cons as len_cons}
use Prim.Native.Char.{Char, len_utf8}
use text.Mathlib.TextLemmas.{length-append, length-cons}
use text.Mathlib.TextPositions.{len_utf8-pos}
use postgrust_sql.Prelude.{
  ℕ, zero, suc, ◌+◌, ◌-◌, ◌≤◌, ◌≡◌, refl, ◌∙◌, true, List, [], ◌∷◌, any, leb, ◌==◌, string_eq,
  arith, subst,
}
use postgrust_sql.Prelude.Result.{Result, ok, err, ◌>>=◌, passed, not_refused, ok_inj}
use postgrust_sql.Core.Error.{DbResult}
use postgrust_sql.Core.Value.{Externals, Value}
use postgrust_sql.Core.Table.{Column, DataType, varchar}
use postgrust_sql.Storage.Page.{Fault}
use postgrust_sql.Executor.Condition.{lift}
use postgrust_sql.Executor.Dml.{coerce, padded, pad_right, spaces, validate_and_coerce_types}

count-spaces : (n : ℕ) → count (spaces n) ≡ n
unfolding spaces
count-spaces zero = refl
count-spaces (suc n) = length-append " " (spaces n) ∙ omega (arith, count-spaces n)

len-cons : (c : Char) (s : String) → len (String.◌∷◌ c s) ≡ len_utf8 c + len s
len-cons c s = λ i. len_cons c s i

count-le-len : (s : String) → count s ≤ len s
count-le-len String.[] = omega arith
count-le-len (String.◌∷◌ c s) =
    let (k, e) = len_utf8-pos c in omega (arith, length-cons c s, len-cons c s, e, count-le-len s)

count-pad_right : (width : ℕ) (s : String) → count s ≤ width → count (pad_right width s) ≡ width
unfolding pad_right
count-pad_right width s h =
    length-append s (spaces (width - count s)) ∙ omega (arith, count-spaces (width - count s))

module _ {x : Externals} where
  -- What a column's type says of a value: a VARCHAR text is not longer than the column, in bytes, a
  -- CHAR text has exactly the column's number of characters, an enum text is one of the listed.
  abbrev pub FitsType : DataType → Value x → Type 0
  FitsType (varchar max_length) (Value.text s) = len s ≤ max_length
  FitsType (DataType.char width) (Value.char s) = count s ≡ width
  FitsType (DataType.char width) (Value.text s) = ⊥
  FitsType (DataType.enum name values) (Value.enum own s) = any (λ v. v == s) values ≡ true
  FitsType (DataType.enum name values) (Value.text s) = ⊥
  FitsType _ v = Unit {0}

  padded-FitsType :
      (col : Column) (width : ℕ) (s : String) (out : Value x)
      → padded col width s ≡ ok out
      → FitsType (DataType.char width) out
  padded-FitsType col width s out h =
      let (fits, e) = not_refused (leb (len s) width) _ _ _ h in
      subst (FitsType (DataType.char width)) e
        (count-pad_right width s (ground (arith, count-le-len s, fits)))

  coerce-FitsType :
      (col : Column) (t : DataType) (v out : Value x) → coerce col t v ≡ ok out → FitsType t out
  unfolding coerce
  coerce-FitsType col (varchar max_length) (Value.text s) out h =
      let (fits, e) = not_refused (leb (len s) max_length) _ _ _ h in
      subst (FitsType (varchar max_length)) e (ground (arith, fits))
  coerce-FitsType col (DataType.char width) (Value.text s) out h = padded-FitsType col width s out h
  coerce-FitsType col (DataType.char width) (Value.char s) out h = padded-FitsType col width s out h
  coerce-FitsType col (DataType.enum name values) (Value.text s) out h =
      let (listed, e) = passed (any (λ v. v == s) values) _ _ _ h in
      subst (FitsType (DataType.enum name values)) e listed
  coerce-FitsType col (DataType.enum name values) (Value.enum own s) out h =
      let (listed, e) = passed (any (λ v. v == s) values) _ _ _ h in
      subst (FitsType (DataType.enum name values)) e listed
  coerce-FitsType col t v out h = subst (FitsType t) (ok_inj h) tt

  -- the walk over columns and values, which are at least as many
  abbrev pub Fit : List Column → List (Value x) → Type 0
  Fit [] values = Unit {0}
  Fit (col ∷ cols) [] = ⊥
  Fit (col ∷ cols) (v ∷ values) = FitsType col.data_type v × Fit cols values

  cons-Fit :
      (col : Column) (cols : List Column) (first : DbResult (Value x))
      (rest : Result Fault (List (Value x))) (out : List (Value x))
      → ((v : Value x) → first ≡ ok v → FitsType col.data_type v)
      → ((vs : List (Value x)) → rest ≡ ok vs → Fit cols vs)
      → (lift first >>= λ v. rest >>= λ vs. ok (v ∷ vs)) ≡ ok out
      → Fit (col ∷ cols) out
  cons-Fit col cols (ok v) (ok vs) out one more h =
      subst (Fit (col ∷ cols)) (ok_inj h) (one v refl, more vs refl)
  cons-Fit col cols (ok v) (err e) out one more h = absurd (ground (arith, h))
  cons-Fit col cols (err e) rest out one more h = absurd (ground (arith, h))

  -- The values that pass the checks of an INSERT are at least as many as the columns and within the
  -- bounds of the columns' types: a VARCHAR text takes no more bytes than the column allows, a CHAR
  -- text has exactly the column's number of characters, an ENUM text is one of the type's.
  pub validate_and_coerce_types-Fit :
      (cols : List Column) (values out : List (Value x))
      → validate_and_coerce_types cols values ≡ ok out
      → Fit cols out
  unfolding validate_and_coerce_types
  validate_and_coerce_types-Fit [] values out h = tt
  validate_and_coerce_types-Fit (col ∷ cols) [] out h = absurd (ground (arith, h))
  validate_and_coerce_types-Fit (col ∷ cols) (v ∷ values) out h =
      cons-Fit col cols (coerce col col.data_type v) (validate_and_coerce_types cols values) out
        (coerce-FitsType col col.data_type v) (validate_and_coerce_types-Fit cols values) h
