-- ===== src/Transaction/Manager.antt =====
-- src/transaction/manager.rs: the counter of the single-connection version.
use Prim.Native.Nat.{max}
use postgrust_sql.Prelude.{
  ℕ, zero, suc, ◌+◌, ◌-◌, ◌%◌, ◌^◌, ◌≤◌, ◌<◌, ◌≡◌, refl, List, [], ◌∷◌, arith,
}

pub record TransactionManager : Type 0 where
  pub next_tx_id : ℕ

unfoldable pub new : TransactionManager
new = record { next_tx_id = 1 }

unfoldable pub begin_transaction : TransactionManager → ℕ × TransactionManager
begin_transaction m = (m.next_tx_id, record { next_tx_id = (m.next_tx_id + 1) % 2 ^ 64 })

unfoldable pub current_tx_id : TransactionManager → ℕ
current_tx_id m = m.next_tx_id

unfoldable pub get_oldest_active_tx : TransactionManager → ℕ
unfolding current_tx_id
get_oldest_active_tx m = max (current_tx_id m - 1) 1

-- the identifiers of `n` calls, in order
pub begin_times : ℕ → TransactionManager → List ℕ
unfolding begin_transaction
begin_times zero m = []
begin_times (suc n) m = let (tx, m') = begin_transaction m in tx ∷ begin_times n m'

abbrev pub Ascending : ℕ → List ℕ → Type 0
Ascending low [] = Unit
Ascending low (x ∷ xs) = (low ≤ x) × Ascending (x + 1) xs

begin_times-Ascending_from :
    (n : ℕ) (m : TransactionManager) (low : ℕ)
    → low ≡ m.next_tx_id
    → low + n < 2 ^ 64
    → Ascending low (begin_times n m)
unfolding begin_times
begin_times-Ascending_from zero m low e h = tt
begin_times-Ascending_from (suc n) m low e h = (
  omega arith,
  begin_times-Ascending_from n (record { next_tx_id = (m.next_tx_id + 1) % 2 ^ 64 })
      (m.next_tx_id + 1) (omega arith) (omega arith),
)

-- Until the counter wraps, the identifiers that successive calls return are strictly ascending,
-- from the counter on.
pub begin_times-Ascending :
    (n : ℕ) (m : TransactionManager)
    → m.next_tx_id + n < 2 ^ 64
    → Ascending m.next_tx_id (begin_times n m)
begin_times-Ascending n m h = begin_times-Ascending_from n m m.next_tx_id refl h
