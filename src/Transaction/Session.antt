-- ===== src/Transaction/Session.antt =====
-- src/transaction/snapshot.rs: the transaction of one connection. The database is a parameter: it
-- is copied and restored as a whole.
use postgrust_sql.Prelude.{ℕ, ◌≡◌, refl, Bool, true, false, Option, none, some}
use postgrust_sql.Transaction.Snapshot.{Snapshot}

pub record Transaction (D : Type 0) : Type 0 where
  pub tx_id : Option ℕ
  pub mvcc_snapshot : Option Snapshot
  pub db_snapshot : Option D

module _ {D : Type 0} where
  unfoldable pub new : Transaction D
  new = record { tx_id = none; mvcc_snapshot = none; db_snapshot = none }

  unfoldable pub begin : Transaction D → ℕ → Snapshot → D → Transaction D
  begin t tx_id mvcc_snapshot db = record {
    tx_id = some tx_id;
    mvcc_snapshot = some mvcc_snapshot;
    db_snapshot = some db;
  }

  unfoldable pub commit : Transaction D → Transaction D
  commit t = record { tx_id = none; mvcc_snapshot = none; db_snapshot = none }

  -- `take()` leaves `None`; the second component is `*db` afterwards
  unfoldable pub rollback : Transaction D → D → Transaction D × D
  rollback t db = (
    record { tx_id = none; mvcc_snapshot = none; db_snapshot = none },
    elim t.db_snapshot [ some snapshot ↦ snapshot | none ↦ db ],
  )

  unfoldable pub snapshot : Transaction D → Option Snapshot
  snapshot t = t.mvcc_snapshot

  unfoldable pub is_active : Transaction D → Bool
  is_active t = elim t.tx_id [ some _ ↦ true | none ↦ false ]

  unfoldable pub tx_id : Transaction D → Option ℕ
  tx_id t = t.tx_id

  -- A rollback restores the database of BEGIN whatever was done to it since, by this connection or
  -- another; a second rollback, or one after a commit, changes nothing.
  pub rollback-begin :
      (t : Transaction D) (tx : ℕ) (s : Snapshot) (db later other : D)
      → let (ended, restored) = rollback (begin t tx s db) later in
        (restored ≡ db)
        × (is_active ended ≡ false)
        × ((rollback ended other).1 ≡ other)
        × ((rollback (commit (begin t tx s db)) other).1 ≡ other)
  unfolding rollback begin commit is_active
  rollback-begin t tx s db later other = (refl, refl, refl, refl)
