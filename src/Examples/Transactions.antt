-- ===== src/Examples/Transactions.antt =====
-- Transactions 1 and 2 of src/transaction/global_manager.rs at work on rows of numbers.
use postgrust_sql.Prelude.{
  List, ℕ, ◌≤◌, ◌≡◌, refl, true, false, not, none, some, [], ◌∷◌, arith, nat_eq,
}
use postgrust_sql.Prelude.Set.{contains, insert, remove}
use postgrust_sql.Core.Row.{Row, new_with_xmin, mark_deleted, is_visible_to_snapshot, is_dead}
use postgrust_sql.Transaction.Global.{
  GlobalTransactionManager, new, minimum, get_snapshot, begin_transaction, commit_transaction,
  get_oldest_active_tx,
}
use postgrust_sql.Transaction.Global.Invariant.{Reach, here, next, begin, commit, IsValid}
use postgrust_sql.Transaction.Global.History.{
  Call, begin, commit, rollback, run, open_in, run_effect,
}
use postgrust_sql.Transaction.Global.Isolation.{
  committed_visible, update_shows_one_version, next_transaction_leaks,
}
use postgrust_sql.Transaction.Global.Horizon.{
  held_snapshot_loses_row, dead_row_stays_invisible, uncommitted_delete_is_dead,
}

-- transactions 1 and 2 have begun
abbrev two_active : GlobalTransactionManager
two_active = record { next_tx_id = 3; active_transactions = 2 ∷ 1 ∷ [] }

-- transaction 1 has ended, 2 is active
abbrev second_active : GlobalTransactionManager
second_active = record { next_tx_id = 3; active_transactions = 2 ∷ [] }

-- a row of transaction 1
abbrev first_row : Row ℕ
first_row = record { values = 10 ∷ []; xmin = 1; xmax = none }

-- a row of the initial data, deleted by transaction 1
abbrev deleted_row : Row ℕ
deleted_row = record { values = 10 ∷ []; xmin = 0; xmax = some 1 }

abbrev initial_row : Row ℕ
initial_row = record { values = 10 ∷ []; xmin = 0; xmax = none }

two_active-IsValid : IsValid two_active
unfolding contains
two_active-IsValid = record { started = omega arith; issued = λ tx h. ground arith }

second_active-IsValid : IsValid second_active
unfolding contains
second_active-IsValid = record { started = omega arith; issued = λ tx h. ground arith }

-- BEGIN, BEGIN, COMMIT 1 from the first state
begun_begun_committed : Reach new second_active
unfolding new begin_transaction commit_transaction insert remove
begun_begun_committed =
    next
      (next (next here (begin new (omega arith)))
        (begin (record { next_tx_id = 2; active_transactions = 1 ∷ [] }) (omega arith)))
      (commit two_active 1)

committed_visible_example : is_visible_to_snapshot first_row (get_snapshot second_active) ≡ true
unfolding commit_transaction remove
committed_visible_example = committed_visible first_row two_active (omega arith) refl here

update_shows_one_version_example :
    is_visible_to_snapshot {V = ℕ} (new_with_xmin (11 ∷ []) 2) (get_snapshot two_active)
    ≡ not (is_visible_to_snapshot (mark_deleted initial_row 2) (get_snapshot two_active))
unfolding is_visible_to_snapshot get_snapshot contains minimum
update_shows_one_version_example =
    update_shows_one_version initial_row (get_snapshot two_active) 2 (11 ∷ []) refl refl
      (omega arith)

next_transaction_leaks_example :
    (is_visible_to_snapshot {V = ℕ}
        (new_with_xmin (12 ∷ []) (begin_transaction two_active).0.0)
        (get_snapshot two_active)
      ≡ true)
    × ((get_snapshot two_active).xmax ≤ (begin_transaction two_active).0.0)
next_transaction_leaks_example = next_transaction_leaks two_active (12 ∷ []) two_active-IsValid

dead_row_stays_invisible_example :
    is_visible_to_snapshot deleted_row (get_snapshot second_active) ≡ false
unfolding is_dead get_oldest_active_tx minimum
dead_row_stays_invisible_example =
    dead_row_stays_invisible deleted_row 1 second_active-IsValid refl refl (omega arith)
      (ground arith) here

uncommitted_delete_is_dead_example :
    (is_dead (mark_deleted initial_row 2) (get_oldest_active_tx second_active) ≡ true)
    × (is_visible_to_snapshot (mark_deleted initial_row 2) (get_snapshot second_active) ≡ true)
unfolding minimum is_visible_to_snapshot get_snapshot contains
uncommitted_delete_is_dead_example =
    uncommitted_delete_is_dead initial_row second_active 2 second_active-IsValid refl refl refl

-- transactions 1 and 2 have begun, 1 has been rolled back
abbrev calls : List Call
calls = rollback 1 ∷ begin ∷ begin ∷ []

run_effect_example :
    ((begin_transaction (run calls)).0.0 ≡ 3)
    × ((get_snapshot (run calls)).xmax ≡ 3)
    × ((tx : ℕ) → contains (run calls).active_transactions tx ≡ open_in calls tx)
    × ((tx : ℕ) → contains (get_snapshot (run calls)).active_txs tx ≡ open_in calls tx)
run_effect_example = run_effect calls (omega arith)

held_snapshot_loses_row_example :
    let later = commit_transaction (begin_transaction two_active).1 1 in
    (contains later.active_transactions 3 ≡ true)
    × (is_dead (mark_deleted initial_row 1) (get_oldest_active_tx later) ≡ true)
    × (is_visible_to_snapshot (mark_deleted initial_row 1) (begin_transaction two_active).0.1
        ≡ true)
unfolding minimum begin_transaction get_snapshot is_visible_to_snapshot contains
held_snapshot_loses_row_example =
    held_snapshot_loses_row initial_row two_active 1 two_active-IsValid refl (omega arith) refl refl
