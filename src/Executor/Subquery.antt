-- ===== src/Executor/Subquery.antt =====
-- src/executor/subquery.rs: what a subquery gives to the condition around it. The SELECT itself,
-- and whether a statement is one, are parameters; so is the subquery's context, which no method
-- reads.
use Prim.Native.String.{String}
use postgrust_sql.Prelude.{Bool, true, false, not, List, [], ◌∷◌, length, leb, if◌then◌else◌}
use postgrust_sql.Prelude.Result.{Result, ok, err, ◌>>=◌}
use postgrust_sql.Core.Error.{parse_error}
use postgrust_sql.Core.Value.{Externals, Value, null}
use postgrust_sql.Storage.Page.{Fault, failed, panicked}

-- the results of a statement: a message, or rows with the names of their columns
pub data QueryResult : Type 0 where
  success : String → QueryResult
  rows : List (List String) → List String → QueryResult

-- `QueryExecutor::select` on the current database
pub record Queries (S : Type 0) : Type 0 where
  pub is_select : S → Bool
  pub select : S → Result Fault QueryResult

refused : String → Fault
refused message = failed (parse_error message)

-- `row[0]`
abbrev pub first_cell : List String → Result Fault String
first_cell [] = err panicked
first_cell (cell ∷ row) = ok cell

module _ {S : Type 0} (queries : Queries S) where
  unfoldable pub run_select : S → Result Fault QueryResult
  unfolding refused
  run_select stmt =
      if queries.is_select stmt
      then queries.select stmt
      else err (refused "Subquery must be a SELECT statement")

  unfoldable pub execute_exists : S → Result Fault Bool
  unfolding run_select
  execute_exists stmt = run_select stmt >>= λ r. has_rows r
    where
      has_rows : QueryResult → Result Fault Bool
      has_rows (rows [] columns) = ok false
      has_rows (rows (row ∷ rest) columns) = ok true
      has_rows (success message) = ok false

  module _ {x : Externals} where
    abbrev pub scalar_of : QueryResult → Result Fault (Value x)
    unfolding refused
    scalar_of (success message) = err (refused "Scalar subquery did not return rows")
    scalar_of (rows [] columns) = ok null
    scalar_of (rows (row ∷ row' ∷ rest) columns) =
        err (refused "Scalar subquery returned more than one row")
    scalar_of (rows (row ∷ []) columns) =
        if not (leb (length columns) 1)
        then err (refused "Scalar subquery returned more than one column")
        else (do cell ← first_cell row; ok (Value.text cell))

    unfoldable pub execute_scalar : S → Result Fault (Value x)
    unfolding run_select
    execute_scalar stmt = run_select stmt >>= scalar_of

    abbrev pub first_cells : List (List String) → Result Fault (List (Value x))
    first_cells [] = ok []
    first_cells (row ∷ rest) = do
      cell ← first_cell row
      values ← first_cells rest
      ok (Value.text cell ∷ values)

    abbrev pub list_of : QueryResult → Result Fault (List (Value x))
    list_of (success message) = ok []
    list_of (rows cells []) = ok []
    list_of (rows cells (c ∷ columns)) = first_cells cells

    unfoldable pub execute_in : S → Result Fault (List (Value x))
    unfolding run_select
    execute_in stmt = run_select stmt >>= list_of
