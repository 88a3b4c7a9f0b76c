-- ===== src/Executor/Dml/Uniqueness.antt =====
-- What the check of the unique columns establishes.
use postgrust_sql.Prelude.{
  ℕ, zero, suc, ◌+◌, ◌≡◌, refl, sym, Bool, true, false, ◌||◌, Option, none, some, List, [], ◌∷◌,
  get_elem?, arith, if◌then◌else◌, Bool-cases, inl, inr, subst,
}
use postgrust_sql.Prelude.Result.{Result, ok, err, ◌>>=◌, bind_ok}
use postgrust_sql.Core.Value.{Externals, Value, null}
use postgrust_sql.Core.Row.{Row, is_visible}
use postgrust_sql.Core.Table.{Column}
use postgrust_sql.Storage.Page.{Fault}
use postgrust_sql.Executor.Compare.{Comparisons, value_eq}
use postgrust_sql.Executor.Condition.{indexed, is_null_value}
use postgrust_sql.Executor.Dml.{any_equal, check_unique, when_unique, validate_unique_from}

-- a test that led to no error was false
test_false :
    (o : Result Fault Bool) (e : Fault)
    → (o >>= λ b. if b then err e else ok tt) ≡ ok (tt {0})
    → o ≡ ok false
test_false (ok true) e h = absurd (ground (arith, h))
test_false (ok false) e h = refl
test_false (err d) e h = absurd (ground (arith, h))

module _ {x : Externals} (cmp : Comparisons x) where
  any_equal-head :
      (value w : Value x) (o : Option (Value x)) (rest : Result Fault Bool)
      → (indexed o >>= λ v. if value_eq cmp v value then ok true else rest) ≡ ok false
      → o ≡ some w
      → value_eq cmp w value ≡ false
  any_equal-head value w none rest h e = absurd (ground (arith, e))
  any_equal-head value w (some w') rest h e = ground (arith, h, e)

  any_equal-tail :
      (value : Value x) (o : Option (Value x)) (rest : Result Fault Bool)
      → (indexed o >>= λ v. if value_eq cmp v value then ok true else rest) ≡ ok false
      → rest ≡ ok false
  any_equal-tail value none rest h = absurd (ground (arith, h))
  any_equal-tail value (some w) rest h = ground (arith, h)

  any_equal_lem :
      (rows : List (Row (Value x))) (tx idx : ℕ) (value : Value x) (j : ℕ) (row : Row (Value x))
      (w : Value x)
      → any_equal cmp rows tx idx value ≡ ok false
      → get_elem? rows j ≡ some row
      → is_visible row tx ≡ true
      → get_elem? row.values idx ≡ some w
      → value_eq cmp w value ≡ false
  unfolding any_equal
  any_equal_lem [] tx idx value j row w h at visible here = absurd (ground (arith, at))
  any_equal_lem (r ∷ rows) tx idx value zero row w h at visible here =
      let same : row ≡ r = cc (at) in
      any_equal-head value w (get_elem? r.values idx) (any_equal cmp rows tx idx value)
        (ground (arith, h, subst (λ q. is_visible q tx ≡ true) same visible))
        (subst (λ (q : Row (Value x)). get_elem? q.values idx ≡ some w) same here)
  any_equal_lem (r ∷ rows) tx idx value (suc j) row w h at visible here =
      any_equal_lem rows tx idx value j row w
        (elim (Bool-cases (is_visible r tx)) [
          | inl shown ↦
              any_equal-tail value (get_elem? r.values idx) (any_equal cmp rows tx idx value)
                (ground (arith, h, shown))
          | inr hidden ↦ ground (arith, h, hidden)
        ])
        at visible here

  check_unique_ok :
      (rows : List (Row (Value x))) (tx idx : ℕ) (col : Column) (v : Value x)
      → is_null_value v ≡ false
      → check_unique cmp rows tx idx col v ≡ ok tt
      → any_equal cmp rows tx idx v ≡ ok false
  unfolding check_unique
  check_unique_ok rows tx idx col null some_value h = absurd (ground (arith, some_value))
  check_unique_ok rows tx idx col v some_value h = test_false (any_equal cmp rows tx idx v) _ h

  validate_unique_from_ok :
      (rows : List (Row (Value x))) (tx idx : ℕ) (cols : List Column) (values : List (Value x))
      (i : ℕ) (col : Column) (v : Value x)
      → validate_unique_from cmp rows tx idx cols values ≡ ok tt
      → get_elem? cols i ≡ some col
      → get_elem? values i ≡ some v
      → col.unique || col.primary_key ≡ true
      → is_null_value v ≡ false
      → any_equal cmp rows tx (idx + i) v ≡ ok false
  unfolding validate_unique_from
  validate_unique_from_ok rows tx idx [] values i col v h at here unique some_value =
      absurd (ground (arith, at))
  validate_unique_from_ok rows tx idx (c ∷ cols) [] i col v h at here unique some_value =
      absurd (ground (arith, here))
  validate_unique_from_ok rows tx idx (c ∷ cols) (u ∷ values) zero col v h at here unique
        some_value =
      let (_, checked, _) = bind_ok (when_unique cmp c (check_unique cmp rows tx idx c u)) _ tt h in
      let same : u ≡ v = cc (here) in
      let same_column : col ≡ c = cc (at) in
      subst (λ q. any_equal cmp rows tx (idx + 0) q ≡ ok false) same
        (subst (λ n. any_equal cmp rows tx n u ≡ ok false) (omega arith)
          (check_unique_ok rows tx idx c u
            (subst (λ q. is_null_value q ≡ false) (sym same) some_value)
            (ground (
              arith,
              checked,
              subst (λ (q : Column). q.unique || q.primary_key ≡ true) same_column unique,
            ))))
  validate_unique_from_ok rows tx idx (c ∷ cols) (u ∷ values) (suc i) col v h at here unique
        some_value =
      let (_, _, later) = bind_ok (when_unique cmp c (check_unique cmp rows tx idx c u)) _ tt h in
      subst (λ n. any_equal cmp rows tx n v ≡ ok false) (omega arith)
        (validate_unique_from_ok rows tx (suc idx) cols values i col v later at here unique
          some_value)

  -- no row that is visible to transaction `tx` has an equal value in column number `i`
  abbrev pub HasNoEqual : List (Row (Value x)) → ℕ → ℕ → Value x → Type 0
  HasNoEqual rows tx i v =
      (j : ℕ) (row : Row (Value x)) (w : Value x)
      → get_elem? rows j ≡ some row
      → is_visible row tx ≡ true
      → get_elem? row.values i ≡ some w
      → value_eq cmp w v ≡ false

  pub HasNoEqual-validate_unique_from :
      (rows : List (Row (Value x))) (tx : ℕ) (cols : List Column) (values : List (Value x)) (i : ℕ)
      (col : Column) (v : Value x)
      → validate_unique_from cmp rows tx 0 cols values ≡ ok tt
      → get_elem? cols i ≡ some col
      → get_elem? values i ≡ some v
      → col.unique || col.primary_key ≡ true
      → is_null_value v ≡ false
      → HasNoEqual rows tx i v
  HasNoEqual-validate_unique_from rows tx cols values i col v h at here unique some_value j row w =
      let found : any_equal cmp rows tx (0 + i) v ≡ ok false =
        validate_unique_from_ok rows tx 0 cols values i col v h at here unique some_value in
      any_equal_lem rows tx i v j row w
        (subst (λ n. any_equal cmp rows tx n v ≡ ok false) (omega arith) found)
