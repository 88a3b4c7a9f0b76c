-- ===== src/Examples/Conditions.antt =====
-- Conditions on a row of an integer and a text, for src/executor/conditions.rs.
use postgrust_sql.Prelude.{String, ◌≡◌, ◌≢◌, ◌↔◌, refl, true, false, none, List, [], ◌∷◌}
use postgrust_sql.Prelude.Int.{pos}
use postgrust_sql.Prelude.Result.{ok, err}
use postgrust_sql.Core.Value.{Value, small_int, integer}
use postgrust_sql.Core.Row.{Row}
use postgrust_sql.Core.Table
use postgrust_sql.Core.Table.{Column, DataType}
use postgrust_sql.Storage.Page.{panicked}
use postgrust_sql.Executor.Like.{Matches, chars, like_pattern_match, like_pattern_match_iff}
use postgrust_sql.Executor.Compare.{Comparisons}
use postgrust_sql.Executor.Subquery.{Queries, rows}
use postgrust_sql.Executor.Condition.{
  Condition, equals, between, greater_than_or_equal, less_than_or_equal, and, or, is_null, like,
  evaluate_with_columns, column_value, get_column_index,
}
use postgrust_sql.Executor.Condition.Laws.{between-and, evaluate-NoPanic, equal_widths_needed}
use postgrust_sql.Examples.Indexes.{externals}

-- all values of a crate's type are equal here
abbrev pub comparisons : Comparisons externals
comparisons = record {
  real_eq = λ a b. true;
  real_gt = λ a b. false;
  real_lt = λ a b. false;
  decimal_eq = λ a b. true;
  date_eq = λ a b. true;
  timestamp_eq = λ a b. true;
  timestamp_tz_eq = λ a b. true;
  uuid_eq = λ a b. true;
}

abbrev pub column : String → DataType → Column
column name data_type = record {
  name = name;
  data_type = data_type;
  nullable = true;
  primary_key = false;
  unique = false;
  foreign_key = none;
}

abbrev columns : List Column
columns = column "id" DataType.integer ∷ column "name" DataType.text ∷ []

abbrev row : Row (Value externals)
row = record { values = integer (pos 7) ∷ Value.text "seven" ∷ []; xmin = 1; xmax = none }

-- statements are texts, and all of them are a SELECT of the text 7
abbrev queries : Queries String
queries = record {
  is_select = λ stmt. true;
  select = λ stmt. ok (rows (("7" ∷ []) ∷ []) ("id" ∷ []));
}

abbrev either : Condition externals String
either =
    or (is_null "name") (and (like "name" "s%") (between "id" (integer (pos 5)) (integer (pos 9))))

id_value : column_value columns row "id" ≡ ok (integer (pos 7))
unfolding column_value get_column_index Table.position
id_value = refl

like_pattern_match_iff_example :
    (like_pattern_match "seven" "s_v%" ≡ true) ↔ Matches (chars "seven") (chars "s_v%")
like_pattern_match_iff_example = like_pattern_match_iff "seven" "s_v%"

evaluate-NoPanic_example : evaluate_with_columns comparisons columns row either ≢ err panicked
evaluate-NoPanic_example = evaluate-NoPanic comparisons columns row either refl

between-and_example :
    evaluate_with_columns {S = String} comparisons columns row
      (between "id" (integer (pos 5)) (integer (pos 7)))
    ≡ evaluate_with_columns {S = String} comparisons columns row (
        and
          (greater_than_or_equal "id" (integer (pos 5)))
          (less_than_or_equal "id" (integer (pos 7))))
between-and_example =
    between-and comparisons columns row String "id" (integer (pos 5)) (integer (pos 7))

equal_widths_needed_example :
    (evaluate_with_columns {S = String} comparisons columns row (equals "id" (small_int (pos 7)))
      ≡ ok false)
    × (evaluate_with_columns {S = String} comparisons columns row
          (greater_than_or_equal "id" (small_int (pos 7)))
        ≡ ok false)
    × (evaluate_with_columns {S = String} comparisons columns row
          (less_than_or_equal "id" (small_int (pos 7)))
        ≡ ok false)
equal_widths_needed_example =
    equal_widths_needed comparisons columns row String "id" (pos 7) id_value
