-- ===== src/Executor/Dml/Advance.antt =====
-- The sequences that an INSERT leaves.
use postgrust_sql.Prelude.{
  ℕ, String, ◌≡◌, ◌≢◌, refl, ◌^◌, ◌-◌, Bool, true, false, Option, none, some, List, get_elem?,
  arith, nat_eq, string_eq, subst, sym,
}
use postgrust_sql.Prelude.Int.{ℤ, pos}
use postgrust_sql.Prelude.Map.{Map, get}
use postgrust_sql.Prelude.Result.{Result, ok, err}
use postgrust_sql.Core.Value.{Externals, Value, integer}
use postgrust_sql.Core.Row.{new_with_xmin}
use postgrust_sql.Core.Table.{Column, is_serial}
use postgrust_sql.Transaction.Global.{begin_transaction}
use postgrust_sql.Index.{Index}
use postgrust_sql.Storage.Page.{Fault}
use postgrust_sql.Executor.Compare.{Comparisons}
use postgrust_sql.Executor.Subquery.{QueryResult}
use postgrust_sql.Executor.Dml.Storage.{RowStorage}
use postgrust_sql.Executor.Dml.Insert.{
  Session, Outcome, logged, advance_sequences, index_all, prepare_values,
  validate_unique_constraints, after_sequences, after_index, after_store, store_row, after_unique,
  after_prepare, insert_with_storage,
}
use postgrust_sql.Executor.Dml.Sequences.{Above, advance_sequences-Above}

module _ {x : Externals} {St : Type 0} (cmp : Comparisons x) (ops : RowStorage (Value x) St)
    (columns : List Column) (table : String) where
  -- where the statement succeeds, the walk over the columns gave the sequences that it leaves
  abbrev pub IsAdvanced : Result Fault (Map String ℤ) → Outcome cmp ops columns table → Type 0
  IsAdvanced walk r = (q : QueryResult) → r.0 ≡ ok q → walk ≡ ok r.1.sequences

  after_sequences-IsAdvanced :
      (tx : ℕ) (auto : Bool) (s : Session St (Value x)) (o : Result Fault (Map String ℤ))
      → IsAdvanced o (after_sequences cmp ops columns table tx auto s o)
  unfolding after_sequences
  after_sequences-IsAdvanced tx auto s (err e) q h = absurd (ground (arith, h))
  after_sequences-IsAdvanced tx auto s (ok sequences) q h = refl

  module _ (values : List (Value x)) where
    after_index-IsAdvanced :
        (tx : ℕ) (auto : Bool) (s : Session St (Value x))
        (i : Result Fault (Unit {0}) × Map String Index)
        → IsAdvanced
            (advance_sequences columns values s.sequences)
            (after_index cmp ops columns table values tx auto s i)
    unfolding after_index
    after_index-IsAdvanced tx auto s (err e, indexes) = λ q h. absurd (ground (arith, h))
    after_index-IsAdvanced tx auto s (ok _, indexes) =
        after_sequences-IsAdvanced tx auto (record s { indexes = indexes })
          (advance_sequences columns values s.sequences)

    after_store-IsAdvanced :
        (tx : ℕ) (auto : Bool) (s : Session St (Value x)) (i : Result Fault (Unit {0}) × St)
        → IsAdvanced
            (advance_sequences columns values s.sequences)
            (after_store cmp ops columns table values tx auto s i)
    unfolding after_store
    after_store-IsAdvanced tx auto s (err e, storage) = λ q h. absurd (ground (arith, h))
    after_store-IsAdvanced tx auto s (ok _, storage) =
        after_index-IsAdvanced tx auto (record s { storage = storage })
          (index_all table columns values _ s.indexes)

    after_unique-IsAdvanced :
        (active : Option ℕ) (i : Result Fault (Unit {0}) × Session St (Value x))
        → IsAdvanced
            (advance_sequences columns values i.1.sequences)
            (after_unique cmp ops columns table values active i)
    unfolding after_unique store_row
    after_unique-IsAdvanced active (err e, s) = λ q h. absurd (ground (arith, h))
    after_unique-IsAdvanced (some tx) (ok _, s) =
        after_store-IsAdvanced tx false (record s { log = logged (new_with_xmin values tx) s.log })
          (ops.insert s.storage (new_with_xmin values tx))
    after_unique-IsAdvanced none (ok _, s) =
        let tx = (begin_transaction s.tx_manager).0.0 in
        after_store-IsAdvanced tx true
          (record s {
            tx_manager = (begin_transaction s.tx_manager).1;
            log = logged (new_with_xmin values tx) s.log;
          })
          (ops.insert s.storage (new_with_xmin values tx))

  insert_with_storage-IsAdvanced :
      (table_sequences : Map String ℤ) (names : Option (List String))
      (values ordered : List (Value x)) (active : Option ℕ) (s : Session St (Value x))
      → prepare_values cmp ops columns table table_sequences names values ≡ ok ordered
      → IsAdvanced
          (advance_sequences columns ordered s.sequences)
          (insert_with_storage cmp ops columns table table_sequences names values active s)
  unfolding insert_with_storage after_prepare validate_unique_constraints
  insert_with_storage-IsAdvanced table_sequences names values ordered active s prepared =
      subst
        (λ o.
          IsAdvanced (advance_sequences columns ordered s.sequences)
            (after_prepare cmp ops columns table active s o))
        (sym prepared)
        (after_unique-IsAdvanced ordered active
          (validate_unique_constraints cmp ops columns table ordered s))

  -- An INSERT that succeeds leaves for a SERIAL column a sequence above the number that its row has in
  -- this column, if it has one as a 64-bit number, given or generated, and it is not the greatest.
  pub insert_with_storage-Above :
      (table_sequences : Map String ℤ) (names : Option (List String))
      (values ordered : List (Value x)) (active : Option ℕ) (s : Session St (Value x))
      (r : QueryResult) (i : ℕ) (col : Column) (n : ℤ)
      → prepare_values cmp ops columns table table_sequences names values ≡ ok ordered
      → (insert_with_storage cmp ops columns table table_sequences names values active s).0 ≡ ok r
      → get_elem? columns i ≡ some col
      → is_serial col.data_type ≡ true
      → get_elem? ordered i ≡ some (integer n)
      → n ≢ pos (2 ^ 63 - 1)
      → Above n (
          get
            (insert_with_storage cmp ops columns table table_sequences names values active
              s).1.sequences
            col.name)
  insert_with_storage-Above table_sequences names values ordered active s r i col n prepared done =
      advance_sequences-Above columns ordered s.sequences _ i col n (
        insert_with_storage-IsAdvanced table_sequences names values ordered active s prepared r
          done)
