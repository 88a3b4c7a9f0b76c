-- ===== src/Transaction/Global.antt =====
-- `GlobalTransactionManager` of src/transaction/global_manager.rs. The server calls it with the
-- lock on the server instance held, so that each method is one step.
pub mod Invariant
pub mod Isolation
pub mod Horizon
pub mod History
use Prim.Native.Nat.{min, max}
use postgrust_sql.Prelude.{nat_eq, ℕ, ◌+◌, ◌-◌, ◌%◌, ◌^◌, Option, none, some, List, [], ◌∷◌}
use postgrust_sql.Prelude.Set
use postgrust_sql.Transaction.Snapshot.{Snapshot}

pub record GlobalTransactionManager : Type 0 where
  pub next_tx_id : ℕ
  pub active_transactions : List ℕ

-- 1 is the first identifier: 0 marks initial data
unfoldable pub new : GlobalTransactionManager
new = record { next_tx_id = 1; active_transactions = [] }

-- `active.iter().min().copied()`
unfoldable pub minimum : List ℕ → Option ℕ
minimum [] = none
minimum (x ∷ xs) = elim (minimum xs) [ none ↦ some x | some m ↦ some (min x m) ]

unfoldable pub unwrap_or : Option ℕ → ℕ → ℕ
unwrap_or none d = d
unwrap_or (some x) d = x

unfoldable pub get_snapshot : GlobalTransactionManager → Snapshot
unfolding unwrap_or
get_snapshot g = record {
  xmin = unwrap_or (minimum g.active_transactions) g.next_tx_id;
  xmax = g.next_tx_id;
  active_txs = g.active_transactions;
}

-- `fetch_add` wraps at 2^64; the snapshot is read before the transaction is registered
unfoldable pub begin_transaction :
    GlobalTransactionManager → (ℕ × Snapshot) × GlobalTransactionManager
unfolding get_snapshot
begin_transaction g =
    let tx_id = g.next_tx_id in
    let counted = record g { next_tx_id = (g.next_tx_id + 1) % 2 ^ 64 } in
    (
      (tx_id, get_snapshot counted),
      record counted { active_transactions = Set.insert counted.active_transactions tx_id },
    )

unfoldable pub commit_transaction : GlobalTransactionManager → ℕ → GlobalTransactionManager
commit_transaction g tx_id = record g {
  active_transactions = Set.remove g.active_transactions tx_id;
}

unfoldable pub rollback_transaction : GlobalTransactionManager → ℕ → GlobalTransactionManager
rollback_transaction g tx_id = record g {
  active_transactions = Set.remove g.active_transactions tx_id;
}

unfoldable pub current_tx_id : GlobalTransactionManager → ℕ
current_tx_id g = g.next_tx_id

-- `saturating_sub` is the subtraction of ℕ
unfoldable pub get_oldest_active_tx : GlobalTransactionManager → ℕ
unfolding unwrap_or current_tx_id
get_oldest_active_tx g = max (unwrap_or (minimum g.active_transactions) (current_tx_id g - 1)) 1
