-- ===== src/Executor/Condition/Laws.antt =====
-- The evaluation of conditions: ranges, rows of the right width, conditions without subqueries, and
-- comparisons of values of different types.
use Prim.Native.String.{String}
use postgrust_sql.Prelude.{
  ℕ, zero, suc, ◌<◌, ◌≡◌, ◌≢◌, refl, Bool, true, false, ◌&&◌, ◌||◌, Option, none, some, List, [],
  ◌∷◌, length, get_elem?, arith, if◌then◌else◌, ◌==◌, string_eq,
}
use postgrust_sql.Prelude.Int.{ℤ, pos, negsuc}
use postgrust_sql.Prelude.Result.{Result, ok, err, ◌>>=◌}
use postgrust_sql.Core.Error.{DbResult}
use postgrust_sql.Core.Value.{Externals, Value, small_int, integer}
use postgrust_sql.Core.Row.{Row}
use postgrust_sql.Core.Table
use postgrust_sql.Core.Table.{Column}
use postgrust_sql.Storage.Page.{Fault, failed, panicked}
use postgrust_sql.Executor.Compare.{
  Comparisons, value_eq, compare_greater_than, compare_less_than, int_gt,
}
use postgrust_sql.Executor.Subquery.{Queries, rows, execute_scalar, run_select}
use postgrust_sql.Executor.Condition.{
  Condition, equals, not_equals, greater_than, less_than, greater_than_or_equal, less_than_or_equal,
  between, like, in_list, is_null, is_not_null, and, or, in_subquery, not_in_subquery, exists,
  not_exists, equals_subquery, greater_than_subquery, less_than_subquery, lift, index_or, indexed,
  get_column_index, column_value, not_implemented, match_like, evaluate_with_columns,
  evaluate_with_context,
}

position-lt :
    (name : String) (columns : List Column) (i : ℕ)
    → Table.position name columns ≡ some i
    → i < length columns
unfolding Table.position
position-lt name [] i h = ground (arith, h)
position-lt name (c ∷ columns) i h =
    by_tail (Table.position name columns) h (position-lt name columns)
  where
    by_tail :
        (o : Option ℕ)
        → (if c.name == name then some 0 else elim o [ none ↦ none | some j ↦ some (suc j) ])
          ≡ some i
        → ((j : ℕ) → o ≡ some j → j < length columns)
        → i < suc (length columns)
    by_tail none h below = ground (arith, h)
    by_tail (some j) h below = ground (arith, h, below j refl)

get_elem?-some :
    {A : Type 0} (xs : List A) (i : ℕ) → i < length xs → (a : A) × (get_elem? xs i ≡ some a)
get_elem?-some [] i h = absurd (omega arith)
get_elem?-some (x ∷ xs) zero h = (x, refl)
get_elem?-some (x ∷ xs) (suc i) h = get_elem?-some xs i (omega arith)

int_gt_irrefl : (n : ℤ) → int_gt n n ≡ false
int_gt_irrefl (pos n) = ground arith
int_gt_irrefl (negsuc n) = ground arith

-- a range is tested as the two comparisons one after the other
tested_twice :
    {A : Type 0} (o : Result Fault A) (gt lt : A → DbResult Bool) (is_low is_high : A → Bool)
    → (o >>= λ v.
        lift (gt v) >>= λ g. lift (lt v) >>= λ l. ok ((g || is_low v) && (l || is_high v)))
      ≡ ((o >>= λ v. lift (gt v) >>= λ g. ok (g || is_low v)) >>= λ a.
          (o >>= λ v. lift (lt v) >>= λ l. ok (l || is_high v)) >>= λ b. ok (a && b))
tested_twice (err e) gt lt is_low is_high = refl
tested_twice (ok v) gt lt is_low is_high = by_results (gt v) (lt v)
  where
    by_results :
        (g l : DbResult Bool)
        → (lift g >>= λ g. lift l >>= λ l. ok ((g || is_low v) && (l || is_high v))) ≡ (
            (lift g >>= λ g. ok (g || is_low v)) >>= λ a.
            (lift l >>= λ l. ok (l || is_high v)) >>= λ b. ok (a && b))
    by_results (err e) l = refl
    by_results (ok g) (err e) = refl
    by_results (ok g) (ok l) = refl

-- what follows a call panics only if the call does, or the rest
bind-NoPanic :
    {A B : Type 0} (o : Result Fault A) (f : A → Result Fault B)
    → o ≢ err panicked
    → ((a : A) → f a ≢ err panicked)
    → (o >>= f) ≢ err panicked
bind-NoPanic (ok a) f h rest = rest a
bind-NoPanic (err (failed e)) f h rest = cc
bind-NoPanic (err panicked) f h rest = absurd (h refl)

lift-NoPanic : {A : Type 0} (r : DbResult A) → lift r ≢ err panicked
lift-NoPanic (ok a) = cc
lift-NoPanic (err e) = cc

module _ {x : Externals} (cmp : Comparisons x) (columns : List Column) (row : Row (Value x)) where
  column_value-NoPanic :
      (col : String)
      → length row.values ≡ length columns
      → column_value columns row col ≢ err panicked
  unfolding column_value get_column_index
  column_value-NoPanic col wide = by_index (Table.position col columns) (position-lt col columns)
    where
      by_index :
          (o : Option ℕ)
          → ((i : ℕ) → o ≡ some i → i < length columns)
          → (lift (index_or o col) >>= λ i. indexed (get_elem? row.values i)) ≢ err panicked
      by_index none below = cc
      by_index (some i) below =
          let (a, e) = get_elem?-some row.values i (omega (arith, wide, below i refl)) in
          rw (e) (cc)

  on_value-NoPanic :
      (col : String) (f : Value x → Result Fault Bool)
      → length row.values ≡ length columns
      → ((v : Value x) → f v ≢ err panicked)
      → (column_value columns row col >>= f) ≢ err panicked
  on_value-NoPanic col f wide =
      bind-NoPanic (column_value columns row col) f (column_value-NoPanic col wide)

  -- BETWEEN is the conjunction of the two comparisons with its bounds, errors and panics included.
  pub between-and :
      (S : Type 0) (col : String) (low high : Value x)
      → evaluate_with_columns {S = S} cmp columns row (between col low high)
        ≡ evaluate_with_columns {S = S} cmp columns row
            (and (greater_than_or_equal col low) (less_than_or_equal col high))
  unfolding evaluate_with_columns
  between-and S col low high =
      tested_twice (column_value columns row col) (λ v. compare_greater_than cmp v low)
        (λ v. compare_less_than cmp v high) (λ v. value_eq cmp v low) (λ v. value_eq cmp v high)

  module _ {S : Type 0} where
    -- On a row with a value for each column, the evaluation of a condition never panics: it answers
    -- or returns an error.
    pub evaluate-NoPanic :
        (c : Condition x S)
        → length row.values ≡ length columns
        → evaluate_with_columns cmp columns row c ≢ err panicked
    unfolding evaluate_with_columns not_implemented
    evaluate-NoPanic (equals col val) wide = on_value-NoPanic col _ wide (λ v. cc)
    evaluate-NoPanic (not_equals col val) wide = on_value-NoPanic col _ wide (λ v. cc)
    evaluate-NoPanic (greater_than col val) wide =
        on_value-NoPanic col _ wide (λ v. lift-NoPanic (compare_greater_than cmp v val))
    evaluate-NoPanic (less_than col val) wide =
        on_value-NoPanic col _ wide (λ v. lift-NoPanic (compare_less_than cmp v val))
    evaluate-NoPanic (greater_than_or_equal col val) wide =
        on_value-NoPanic col _ wide
          (λ v. bind-NoPanic _ _ (lift-NoPanic (compare_greater_than cmp v val)) (λ g. cc))
    evaluate-NoPanic (less_than_or_equal col val) wide =
        on_value-NoPanic col _ wide
          (λ v. bind-NoPanic _ _ (lift-NoPanic (compare_less_than cmp v val)) (λ g. cc))
    evaluate-NoPanic (between col low high) wide = on_value-NoPanic col _ wide (λ v.
        bind-NoPanic _ _ (lift-NoPanic (compare_greater_than cmp v low))
          (λ g. bind-NoPanic _ _ (lift-NoPanic (compare_less_than cmp v high)) (λ l. cc)))
    evaluate-NoPanic (like col pattern) wide =
        on_value-NoPanic col _ wide (λ v. lift-NoPanic (match_like v pattern))
    evaluate-NoPanic (in_list col values) wide = on_value-NoPanic col _ wide (λ v. cc)
    evaluate-NoPanic (is_null col) wide = on_value-NoPanic col _ wide (λ v. cc)
    evaluate-NoPanic (is_not_null col) wide = on_value-NoPanic col _ wide (λ v. cc)
    evaluate-NoPanic (and a b) wide =
        bind-NoPanic _ _ (evaluate-NoPanic a wide)
          (λ l. bind-NoPanic _ _ (evaluate-NoPanic b wide) (λ r. cc))
    evaluate-NoPanic (or a b) wide =
        bind-NoPanic _ _ (evaluate-NoPanic a wide)
          (λ l. bind-NoPanic _ _ (evaluate-NoPanic b wide) (λ r. cc))
    evaluate-NoPanic (in_subquery _ _) wide = cc
    evaluate-NoPanic (not_in_subquery _ _) wide = cc
    evaluate-NoPanic (exists _) wide = cc
    evaluate-NoPanic (not_exists _) wide = cc
    evaluate-NoPanic (equals_subquery _ _) wide = cc
    evaluate-NoPanic (greater_than_subquery _ _) wide = cc
    evaluate-NoPanic (less_than_subquery _ _) wide = cc

    abbrev pub has_subquery : Condition x S → Bool
    has_subquery (in_subquery _ _) = true
    has_subquery (not_in_subquery _ _) = true
    has_subquery (exists _) = true
    has_subquery (not_exists _) = true
    has_subquery (equals_subquery _ _) = true
    has_subquery (greater_than_subquery _ _) = true
    has_subquery (less_than_subquery _ _) = true
    has_subquery (and a b) = has_subquery a || has_subquery b
    has_subquery (or a b) = has_subquery a || has_subquery b
    has_subquery _ = false

    -- A condition without subqueries has the same outcome with and without their support.
    pub evaluate_without_subquery :
        (queries : Queries S) (c : Condition x S)
        → has_subquery c ≡ false
        → evaluate_with_context cmp columns row queries c ≡ evaluate_with_columns cmp columns row c
    unfolding evaluate_with_context evaluate_with_columns
    evaluate_without_subquery queries (and a b) h =
        rw
          (
            evaluate_without_subquery queries a (ground (arith, h)),
            evaluate_without_subquery queries b (ground (arith, h)),
          )
          refl
    evaluate_without_subquery queries (or a b) h =
        rw
          (
            evaluate_without_subquery queries a (ground (arith, h)),
            evaluate_without_subquery queries b (ground (arith, h)),
          )
          refl
    evaluate_without_subquery queries c h = cc

  -- A number of 64 bits is compared with the same number of 16 bits, in which form small literals
  -- are read: neither `=` nor `>=` nor `<=` holds.
  pub equal_widths_needed :
      (S : Type 0) (col : String) (n : ℤ)
      → column_value columns row col ≡ ok (integer n)
      → (evaluate_with_columns {S = S} cmp columns row (equals col (small_int n)) ≡ ok false)
        × (evaluate_with_columns {S = S} cmp columns row (greater_than_or_equal col (small_int n))
            ≡ ok false)
        × (evaluate_with_columns {S = S} cmp columns row (less_than_or_equal col (small_int n))
            ≡ ok false)
  unfolding evaluate_with_columns value_eq compare_greater_than compare_less_than
  equal_widths_needed S col n e = rw (e, int_gt_irrefl n) (refl, refl, refl)

  -- A number is compared with the answer of a scalar subquery of one row and one column, which is a
  -- text: `=` does not hold, whatever the text is.
  pub scalar_equals_no_number :
      {S : Type 0} (queries : Queries S) (col cell name : String) (stmt : S) (n : ℤ)
      → column_value columns row col ≡ ok (integer n)
      → queries.is_select stmt ≡ true
      → queries.select stmt ≡ ok (rows ((cell ∷ []) ∷ []) (name ∷ []))
      → evaluate_with_context cmp columns row queries (equals_subquery col stmt) ≡ ok false
  unfolding evaluate_with_context value_eq execute_scalar run_select
  scalar_equals_no_number queries col cell name stmt n e is_select answer =
      rw (e, is_select, answer) refl
