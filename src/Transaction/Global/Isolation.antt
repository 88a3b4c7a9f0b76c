-- ===== src/Transaction/Global/Isolation.antt =====
-- What a snapshot lets a statement see, at the moment it is taken and later.
use postgrust_sql.Prelude.{
  ℕ, ◌≤◌, ◌<◌, ◌≡◌, ◌≢◌, true, false, not, none, List, arith, nat_eq, ◌==◌, if◌then◌else◌,
}
use postgrust_sql.Prelude.Set.{contains, contains-insert}
use postgrust_sql.Core.Row.{Row, mark_deleted, new_with_xmin, is_visible, is_visible_to_snapshot}
use postgrust_sql.Transaction.Snapshot.{Snapshot}
use postgrust_sql.Transaction.Global.{
  GlobalTransactionManager, get_snapshot, begin_transaction, commit_transaction,
}
use postgrust_sql.Transaction.Global.Invariant.{
  Reach, IsValid, commit-IsSettled, Reach-IsSettled, unwrap_or-minimum-le,
}

-- In a valid state, a snapshot lists every active transaction, and each lies between its two
-- bounds.
pub get_snapshot_bounds :
    (g : GlobalTransactionManager) (tx : ℕ)
    → IsValid g
    → contains g.active_transactions tx ≡ true
    → (contains (get_snapshot g).active_txs tx ≡ true)
      × ((get_snapshot g).xmin ≤ tx)
      × (tx < (get_snapshot g).xmax)
unfolding get_snapshot
get_snapshot_bounds g tx v a =
    (a, unwrap_or-minimum-le g.active_transactions g.next_tx_id tx a, (v.issued tx a).1)

-- In a valid state, a transaction that begins gets an identifier that is not active, its own snapshot does not list
-- it, and afterwards it is active beside exactly the ones that were active before.
pub begin_fresh :
    (g : GlobalTransactionManager)
    → IsValid g
    → let (started, h) = begin_transaction g in
      (contains g.active_transactions started.0 ≡ false)
      × (contains started.1.active_txs started.0 ≡ false)
      × ((tx : ℕ)
          → contains h.active_transactions tx
            ≡ (if started.0 == tx then true else contains g.active_transactions tx))
unfolding begin_transaction get_snapshot
begin_fresh g v = (
  ground (arith, v.issued g.next_tx_id),
  ground (arith, v.issued g.next_tx_id),
  λ tx. contains-insert g.active_transactions g.next_tx_id tx,
)

module _ {V : Type 0} (r : Row V) (g : GlobalTransactionManager) where
  -- No dirty reads: a row that an active transaction created is not visible to a snapshot taken
  -- then.
  pub no_dirty_read :
      contains g.active_transactions r.xmin ≡ true
      → is_visible_to_snapshot r (get_snapshot g) ≡ false
  unfolding is_visible_to_snapshot get_snapshot
  no_dirty_read a = ground arith

  -- Marking a row that is not deleted as deleted by an active transaction changes nothing for a
  -- snapshot taken then.
  pub no_dirty_delete :
      (tx : ℕ)
      → r.xmax ≡ none
      → contains g.active_transactions tx ≡ true
      → is_visible_to_snapshot (mark_deleted r tx) (get_snapshot g)
        ≡ is_visible_to_snapshot r (get_snapshot g)
  unfolding is_visible_to_snapshot get_snapshot mark_deleted
  no_dirty_delete tx e a = ground arith

module _ {V : Type 0} (r : Row V) where
  -- Once its creator, which had begun, has committed, a row that is not deleted is visible to the
  -- snapshots of every later state.
  pub committed_visible :
      (g : GlobalTransactionManager) {h : GlobalTransactionManager}
      → r.xmin < g.next_tx_id
      → r.xmax ≡ none
      → Reach (commit_transaction g r.xmin) h
      → is_visible_to_snapshot r (get_snapshot h) ≡ true
  unfolding is_visible_to_snapshot get_snapshot
  committed_visible g begun alive path =
      let settled = Reach-IsSettled r.xmin path (commit-IsSettled g r.xmin begun) in
      ground (arith, settled.past, settled.inactive)

  -- An update by transaction `tx` marks the old version and adds a new one. A snapshot that sees
  -- the old version without the mark sees exactly one of the two afterwards, unless `tx` is the
  -- snapshot's upper bound.
  pub update_shows_one_version :
      (s : Snapshot) (tx : ℕ) (values : List V)
      → r.xmax ≡ none
      → is_visible_to_snapshot r s ≡ true
      → tx ≢ s.xmax
      → is_visible_to_snapshot (new_with_xmin values tx) s
        ≡ not (is_visible_to_snapshot (mark_deleted r tx) s)
  unfolding is_visible_to_snapshot mark_deleted new_with_xmin
  update_shows_one_version s tx values alive seen other = ground arith

  -- The test by transaction number, which the DML statements use, sees exactly one version of an
  -- updated row at every number that sees the row without the mark.
  pub update_shows_one_version_at :
      (current tx : ℕ) (values : List V)
      → r.xmax ≡ none
      → is_visible r current ≡ true
      → is_visible (new_with_xmin values tx) current ≡ not (is_visible (mark_deleted r tx) current)
  unfolding is_visible mark_deleted new_with_xmin
  update_shows_one_version_at current tx values alive seen = ground arith

-- In a valid state, a row of the transaction that begins next is visible to a snapshot taken before, committed or
-- not, although the transaction is not below the snapshot's upper bound.
pub next_transaction_leaks :
    {V : Type 0} (g : GlobalTransactionManager) (values : List V)
    → IsValid g
    → (is_visible_to_snapshot (new_with_xmin values (begin_transaction g).0.0) (get_snapshot g)
        ≡ true)
      × ((get_snapshot g).xmax ≤ (begin_transaction g).0.0)
unfolding is_visible_to_snapshot get_snapshot new_with_xmin begin_transaction
next_transaction_leaks g values v = (ground (arith, v.issued g.next_tx_id), omega arith)
