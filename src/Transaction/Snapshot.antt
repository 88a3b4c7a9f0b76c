-- ===== src/Transaction/Snapshot.antt =====
-- `struct Snapshot` of src/transaction/global_manager.rs.
use postgrust_sql.Prelude.{ℕ, List}

pub record Snapshot : Type 0 where
  pub xmin : ℕ
  pub xmax : ℕ
  pub active_txs : List ℕ
