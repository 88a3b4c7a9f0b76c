-- ===== src/Executor/Dml/Commit.antt =====
-- What an INSERT leaves of its transaction.
use postgrust_sql.Prelude.{
  ℕ, ◌%◌, ◌^◌, ◌+◌, String, ◌-◌, ◌≡◌, refl, sym, ap, ◌∙◌, Bool, true, false, Option, none, List,
  nat_eq, arith, if◌then◌else◌, subst,
}
use postgrust_sql.Prelude.Int.{ℤ}
use postgrust_sql.Prelude.Map.{Map}
use postgrust_sql.Prelude.Set
use postgrust_sql.Prelude.Set.{contains, contains-insert, contains-remove}
use postgrust_sql.Prelude.Result.{Result, ok, err, is_err}
use postgrust_sql.Core.Value.{Externals, Value}
use postgrust_sql.Core.Row.{new_with_xmin}
use postgrust_sql.Core.Table.{Column}
use postgrust_sql.Transaction.Global.{
  GlobalTransactionManager, begin_transaction, commit_transaction,
}
use postgrust_sql.Index.{Index}
use postgrust_sql.Storage.Page.{Fault}
use postgrust_sql.Executor.Compare.{Comparisons}
use postgrust_sql.Executor.Dml.Storage.{RowStorage}
use postgrust_sql.Executor.Dml.Insert.{
  Session, logged, commit_if, Outcome, advance_sequences, index_all, prepare_values,
  after_sequences, after_prepare, validate_unique_constraints, after_index, after_store, store_row,
  after_unique, insert_with_storage,
}

-- a transaction that was begun is active unless it was committed
pub active_unless_committed :
    (b : Bool) (g g' : GlobalTransactionManager)
    → g' ≡ (
        if b
        then (begin_transaction g).1
        else commit_transaction (begin_transaction g).1 g.next_tx_id)
    → contains g'.active_transactions g.next_tx_id ≡ b
unfolding begin_transaction commit_transaction
active_unless_committed true g g' e =
    ap (λ (h : GlobalTransactionManager). contains h.active_transactions g.next_tx_id) e
    ∙ contains-insert g.active_transactions g.next_tx_id g.next_tx_id
    ∙ ground arith
active_unless_committed false g g' e =
    ap (λ (h : GlobalTransactionManager). contains h.active_transactions g.next_tx_id) e
    ∙ contains-remove (Set.insert g.active_transactions g.next_tx_id) g.next_tx_id g.next_tx_id
    ∙ ground arith

module _ {x : Externals} {St : Type 0} (cmp : Comparisons x) (ops : RowStorage (Value x) St)
    (columns : List Column) (table : String) where
  -- the rest of the statement after the insertion: it keeps what the storage left, and commits only
  -- if nothing fails
  abbrev pub Finished : ℕ → Bool → Session St (Value x) → Outcome cmp ops columns table → Type 0
  Finished tx auto s r =
      (r.1.storage ≡ s.storage)
      × (r.1.tx_manager ≡ (
          if is_err r.0
          then s.tx_manager
          else commit_if cmp ops columns table auto tx s.tx_manager))

  after_sequences-Finished :
      (tx : ℕ) (auto : Bool) (s : Session St (Value x)) (o : Result Fault (Map String ℤ))
      → Finished tx auto s (after_sequences cmp ops columns table tx auto s o)
  unfolding after_sequences
  after_sequences-Finished tx auto s (err e) = (refl, refl)
  after_sequences-Finished tx auto s (ok sequences) = (refl, refl)

  after_index-Finished :
      (values : List (Value x)) (tx : ℕ) (auto : Bool) (s : Session St (Value x))
      (q : Result Fault (Unit {0}) × Map String Index)
      → Finished tx auto s (after_index cmp ops columns table values tx auto s q)
  unfolding after_index
  after_index-Finished values tx auto s (err e, indexes) = (refl, refl)
  after_index-Finished values tx auto s (ok _, indexes) =
      after_sequences-Finished tx auto (record s { indexes = indexes })
        (advance_sequences columns values s.sequences)

  pub after_store-Finished :
      (values : List (Value x)) (tx : ℕ) (auto : Bool) (s : Session St (Value x))
      (q : Result Fault (Unit {0}) × St)
      → Finished tx auto
          (record s { storage = q.1 })
          (after_store cmp ops columns table values tx auto s q)
  unfolding after_store
  after_store-Finished values tx auto s (err e, st) = (refl, refl)
  after_store-Finished values tx auto s (ok _, st) =
      after_index-Finished values tx auto (record s { storage = st })
        (index_all table columns values ((ops.count st + 2 ^ 64 - 1) % 2 ^ 64) s.indexes)

  after_unique-tx_manager :
      (values : List (Value x)) (s : Session St (Value x))
      → (after_unique cmp ops columns table values none (ok tt, s)).1.tx_manager ≡ (
          if is_err (after_unique cmp ops columns table values none (ok tt, s)).0
          then (begin_transaction s.tx_manager).1
          else commit_transaction (begin_transaction s.tx_manager).1 s.tx_manager.next_tx_id)
  unfolding after_unique store_row begin_transaction
  after_unique-tx_manager values s =
      let tx = s.tx_manager.next_tx_id in
      let row = new_with_xmin values tx in
      let s' : Session St (Value x) = record s {
        tx_manager = (begin_transaction s.tx_manager).1;
        log = logged row s.log;
      } in
      (after_store-Finished values tx true s' (ops.insert s.storage row)).1

  -- An auto-commit INSERT whose values were prepared and passed the check of the unique columns: its
  -- transaction is active afterwards exactly if the statement failed.
  pub failed_insert_stays_active :
      (table_sequences : Map String ℤ) (names : Option (List String)) (values : List (Value x))
      (s : Session St (Value x)) (ordered : List (Value x))
      → prepare_values cmp ops columns table table_sequences names values ≡ ok ordered
      → (validate_unique_constraints cmp ops columns table ordered s).0 ≡ ok tt
      → contains
          (insert_with_storage cmp ops columns table table_sequences names values none
            s).1.tx_manager.active_transactions
          s.tx_manager.next_tx_id
        ≡ is_err (insert_with_storage cmp ops columns table table_sequences names values none s).0
  unfolding insert_with_storage after_prepare
  failed_insert_stays_active table_sequences names values s ordered prepared passed =
      rw (prepared) (
        subst
          (λ o.
            contains (after o).1.tx_manager.active_transactions s.tx_manager.next_tx_id
            ≡ is_err (after o).0)
          (sym passed)
          (active_unless_committed (is_err (after (ok tt)).0) s.tx_manager
            (after (ok tt)).1.tx_manager (after_unique-tx_manager ordered checked)))
    where
      checked : Session St (Value x)
      checked = (validate_unique_constraints cmp ops columns table ordered s).1

      after : Result Fault (Unit {0}) → Outcome cmp ops columns table
      after o = after_unique cmp ops columns table ordered none (o, checked)
