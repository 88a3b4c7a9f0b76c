-- ===== src/Executor/Dml/Endings.antt =====
-- How UPDATE and DELETE end: what they leave of their transaction.
use postgrust_sql.Prelude.{
  ℕ, String, ◌≡◌, refl, Bool, true, Option, none, List, nat_beq, nat_eq, Bool-cases, inl, inr,
  if◌then◌else◌,
}
use postgrust_sql.Prelude.Map.{Map}
use postgrust_sql.Prelude.Set.{contains}
use postgrust_sql.Prelude.Result.{Result, ok, err, ◌>>=◌, is_err}
use postgrust_sql.Core.Value.{Externals, Value}
use postgrust_sql.Core.Row.{Row}
use postgrust_sql.Core.Table.{Column}
use postgrust_sql.Transaction.Global.{begin_transaction}
use postgrust_sql.Index.{Index}
use postgrust_sql.Storage.Page.{Fault}
use postgrust_sql.Executor.Compare.{Comparisons}
use postgrust_sql.Executor.Condition.{Condition}
use postgrust_sql.Executor.Dml.Storage.{RowStorage}
use postgrust_sql.Executor.Dml.Insert.{Session}
use postgrust_sql.Executor.Dml.Commit.{active_unless_committed}
use postgrust_sql.Executor.Dml.Delete.{
  Outcome, end_statement, selected, filter_holds, delete_predicate, unindex_rows, after_unindex,
  after_delete_where, after_selection, delete_rows, delete_with_storage,
}
use postgrust_sql.Executor.Dml.Update.{
  column_updates, updater, move_rows, after_move, after_reread, after_update_where, after_choice,
  update_rows, update_with_storage,
}

module _ {x : Externals} {St : Type 0} where
  -- the transaction is ended only if nothing fails
  abbrev Ended : ℕ × Bool → Session St (Value x) → Outcome x St → Type 0
  Ended tx s r =
      r.1.tx_manager ≡ (if is_err r.0 then s.tx_manager else end_statement tx s.tx_manager)

  after_unindex-Ended :
      (n : ℕ) (tx : ℕ × Bool) (s : Session St (Value x)) (o : Result Fault (Map String Index))
      → Ended tx s (after_unindex n tx s o)
  unfolding after_unindex
  after_unindex-Ended n tx s (err e) = refl
  after_unindex-Ended n tx s (ok indexes) = refl

  after_delete_where-Ended :
      (columns : List Column) (table : String) (rows : List (ℕ × Row (Value x))) (tx : ℕ × Bool)
      (s : Session St (Value x)) (q : Result Fault ℕ × St)
      → Ended tx s (after_delete_where columns table rows tx s q)
  unfolding after_delete_where
  after_delete_where-Ended columns table rows tx s (err e, storage) = refl
  after_delete_where-Ended columns table rows tx s (ok n, storage) =
      after_unindex-Ended n tx (record s { storage = storage })
        (unindex_rows columns table rows s.indexes)

  module _ (cmp : Comparisons x) (ops : RowStorage (Value x) St) (columns : List Column)
      (table : String) where
    after_move-Ended :
        (n : ℕ) (tx : ℕ × Bool) (s : Session St (Value x))
        (q : Result Fault (Unit {0}) × Map String Index)
        → Ended tx s (after_move cmp ops columns table n tx s q)
    unfolding after_move
    after_move-Ended n tx s (err e, indexes) = refl
    after_move-Ended n tx s (ok _, indexes) = refl

    after_reread-Ended :
        (rows : List (ℕ × Row (Value x))) (n : ℕ) (tx : ℕ × Bool) (s : Session St (Value x))
        (q : Result Fault (List (Row (Value x))) × St)
        → Ended tx s (after_reread cmp ops columns table rows n tx s q)
    unfolding after_reread
    after_reread-Ended rows n tx s (err e, storage) = refl
    after_reread-Ended rows n tx s (ok rows_after, storage) =
        after_move-Ended n tx (record s { storage = storage })
          (move_rows cmp columns table rows_after _ rows s.indexes)

    after_update_where-Ended :
        (rows : List (ℕ × Row (Value x))) (tx : ℕ × Bool) (s : Session St (Value x))
        (q : Result Fault ℕ × St)
        → Ended tx s (after_update_where cmp ops columns table rows tx s q)
    unfolding after_update_where
    after_update_where-Ended rows tx s (err e, storage) = refl
    after_update_where-Ended rows tx s (ok n, storage) = elim (Bool-cases (nat_beq n 0)) [
      | inl e ↦ rw (e) (after_move-Ended n tx (record s { storage = storage }) (ok tt, s.indexes))
      | inr e ↦ rw (e) (after_reread-Ended rows n tx s (ops.get_all storage))
    ]

    module _ {S : Type 0} (filter : Option (Condition x S)) (tx : ℕ × Bool) where
      after_selection-Ended :
          (s : Session St (Value x)) (o : Result Fault (List (ℕ × Row (Value x))))
          → Ended tx s (after_selection cmp ops columns table filter tx s o)
      unfolding after_selection
      after_selection-Ended s (err e) = refl
      after_selection-Ended s (ok rows) =
          after_delete_where-Ended columns table rows tx s
            (ops.delete_where s.storage (delete_predicate cmp columns filter tx.0) tx.0)

      after_choice-Ended :
          (updates : List (ℕ × Value x)) (s : Session St (Value x))
          (o : Result Fault (List (ℕ × Row (Value x))))
          → Ended tx s (after_choice cmp ops columns table updates filter tx s o)
      unfolding after_choice
      after_choice-Ended updates s (err e) = refl
      after_choice-Ended updates s (ok rows) =
          after_update_where-Ended rows tx s (
            ops.update_where s.storage (filter_holds cmp columns filter) (updater updates tx.0)
              tx.0)

    -- An auto-commit DELETE, and an auto-commit UPDATE of columns that exist: the statement's
    -- transaction is active afterwards exactly if the statement failed.
    pub failed_change_stays_active :
        {S : Type 0} (filter : Option (Condition x S)) (assignments : List (String × Value x))
        (updates : List (ℕ × Value x)) (s : Session St (Value x))
        → column_updates columns assignments ≡ ok updates
        → (contains
              (delete_with_storage cmp ops columns table filter none
                s).1.tx_manager.active_transactions
              s.tx_manager.next_tx_id
            ≡ is_err (delete_with_storage cmp ops columns table filter none s).0)
          × (contains
                (update_with_storage cmp ops columns table assignments filter none
                  s).1.tx_manager.active_transactions
                s.tx_manager.next_tx_id
              ≡ is_err (update_with_storage cmp ops columns table assignments filter none s).0)
    unfolding delete_with_storage update_with_storage delete_rows update_rows
    failed_change_stays_active filter assignments updates s known =
        let tx : ℕ × Bool = (s.tx_manager.next_tx_id, true) in
        let (all_rows, storage) = ops.get_all s.storage in
        let begun : Session St (Value x) = record s {
          storage = storage;
          tx_manager = (begin_transaction s.tx_manager).1;
        } in
        let chosen = all_rows >>= λ rows. selected cmp columns filter tx.0 0 rows in
        let deleted = after_selection cmp ops columns table filter tx begun chosen in
        let updated = after_choice cmp ops columns table updates filter tx begun chosen in
        (
          active_unless_committed (is_err deleted.0) s.tx_manager deleted.1.tx_manager
              (after_selection-Ended filter tx begun chosen),
          rw (known) (
              active_unless_committed (is_err updated.0) s.tx_manager updated.1.tx_manager
                (after_choice-Ended filter tx updates begun chosen)),
        )
