-- ===== src/Transaction/Global/Horizon.antt =====
-- The horizon that VACUUM removes up to, against what snapshots still see.
use postgrust_sql.Prelude.{
  ℕ, ◌+◌, ◌^◌, ◌-◌, ◌≤◌, ◌<◌, ◌≡◌, ◌≢◌, true, false, Option, none, some, arith, nat_eq, refl, sym,
  ap, ◌∙◌, inl, inr, Bool-cases,
}
use postgrust_sql.Prelude.Set.{contains, contains-insert, contains-remove}
use postgrust_sql.Core.Row.{Row, mark_deleted, is_visible_to_snapshot, is_dead}
use postgrust_sql.Transaction.Global.{
  GlobalTransactionManager, minimum, get_snapshot, get_oldest_active_tx, begin_transaction,
  commit_transaction,
}
use postgrust_sql.Transaction.Global.Invariant.{
  Reach, IsValid, Reach-IsSettled, unwrap_or-minimum-le, minimum-contains, minimum-none,
}

-- While some transaction is active, the horizon is the least active one.
oldest_is_minimum :
    (g : GlobalTransactionManager) (tx : ℕ)
    → IsValid g
    → contains g.active_transactions tx ≡ true
    → minimum g.active_transactions ≡ some (get_oldest_active_tx g)
unfolding get_oldest_active_tx
oldest_is_minimum g tx v a = by_minimum (minimum g.active_transactions) refl
  where
    by_minimum :
        (o : Option ℕ)
        → minimum g.active_transactions ≡ o
        → minimum g.active_transactions ≡ some (get_oldest_active_tx g)
    by_minimum none e = ground (arith, minimum-none g.active_transactions tx)
    by_minimum (some k) e = ground (arith, minimum-contains g.active_transactions k e, v.issued k)

-- In a valid state with an active transaction, the horizon is at least 1, at most that
-- transaction, and itself an active one.
pub get_oldest_active_tx_bounds :
    (g : GlobalTransactionManager) (tx : ℕ)
    → IsValid g
    → contains g.active_transactions tx ≡ true
    → (1 ≤ get_oldest_active_tx g)
      × (get_oldest_active_tx g ≤ tx)
      × (contains g.active_transactions (get_oldest_active_tx g) ≡ true)
unfolding get_oldest_active_tx
get_oldest_active_tx_bounds g tx v a = (
  omega arith,
  omega (arith, unwrap_or-minimum-le g.active_transactions (g.next_tx_id - 1) tx a, v.issued tx a),
  minimum-contains g.active_transactions (get_oldest_active_tx g) (oldest_is_minimum g tx v a),
)

module _ {V : Type 0} (r : Row V) where
  -- The deleter of a dead row is active only if it is the horizon itself.
  pub dead_deleter :
      (g : GlobalTransactionManager) (xmax : ℕ)
      → IsValid g
      → r.xmax ≡ some xmax
      → is_dead r (get_oldest_active_tx g) ≡ true
      → contains g.active_transactions xmax ≡ true
      → xmax ≡ get_oldest_active_tx g
  unfolding is_dead
  dead_deleter g xmax v e dead a = ground (arith, get_oldest_active_tx_bounds g xmax v a)

  -- In a valid state, a dead row whose deleter was handed out and is not the least active transaction
  -- is invisible to a snapshot that is taken in this state or in a later one. Nothing is said of
  -- snapshots that were taken before and are still held.
  pub dead_row_stays_invisible :
      {g h : GlobalTransactionManager} (xmax : ℕ)
      → IsValid g
      → r.xmax ≡ some xmax
      → is_dead r (get_oldest_active_tx g) ≡ true
      → xmax < g.next_tx_id
      → minimum g.active_transactions ≢ some xmax
      → Reach g h
      → is_visible_to_snapshot r (get_snapshot h) ≡ false
  unfolding is_visible_to_snapshot get_snapshot
  dead_row_stays_invisible {g} xmax v e dead begun other path =
      let ended : contains g.active_transactions xmax ≡ false =
        elim (Bool-cases (contains g.active_transactions xmax)) [
          | inl a ↦ absurd (
              other (oldest_is_minimum g xmax v a ∙ ap some (sym (dead_deleter g xmax v e dead a))))
          | inr b ↦ b
        ] in
      let settled = Reach-IsSettled xmax path (record { past = begun; inactive = ended }) in
      ground (arith, settled.past, settled.inactive)

  -- In a valid state, a row that is not deleted and that a snapshot of the moment shows is dead as
  -- soon as the oldest active transaction marks it, uncommitted as this is, while the snapshot
  -- still shows it.
  pub uncommitted_delete_is_dead :
      (g : GlobalTransactionManager) (tx : ℕ)
      → IsValid g
      → minimum g.active_transactions ≡ some tx
      → r.xmax ≡ none
      → is_visible_to_snapshot r (get_snapshot g) ≡ true
      → (is_dead (mark_deleted r tx) (get_oldest_active_tx g) ≡ true)
        × (is_visible_to_snapshot (mark_deleted r tx) (get_snapshot g) ≡ true)
  unfolding is_dead is_visible_to_snapshot mark_deleted get_snapshot get_oldest_active_tx
  uncommitted_delete_is_dead g tx v oldest alive seen =
      (ground (arith, oldest), ground (arith, minimum-contains g.active_transactions tx oldest))

oldest_above :
    (g : GlobalTransactionManager) (tx : ℕ)
    → ((m : ℕ) → contains g.active_transactions m ≡ true → tx ≤ m)
    → tx < g.next_tx_id
    → tx ≤ get_oldest_active_tx g
unfolding get_oldest_active_tx
oldest_above g tx below begun = by_minimum (minimum g.active_transactions) refl
  where
    by_minimum : (o : Option ℕ) → minimum g.active_transactions ≡ o → tx ≤ get_oldest_active_tx g
    by_minimum none e = ground (arith, e, begun)
    by_minimum (some m) e = ground (arith, e, below m (minimum-contains g.active_transactions m e))

-- In a valid state, a transaction begins and takes its snapshot, and then the least of the
-- transactions that were active before it marks a row that is not deleted, and that this snapshot
-- shows, as deleted and commits: the row is dead, although the new transaction is still active and its
-- snapshot shows the row. The counter has not reached its last value.
pub held_snapshot_loses_row :
    {V : Type 0} (r : Row V) (g : GlobalTransactionManager) (tx : ℕ)
    → IsValid g
    → minimum g.active_transactions ≡ some tx
    → g.next_tx_id + 1 < 2 ^ 64
    → r.xmax ≡ none
    → is_visible_to_snapshot r (begin_transaction g).0.1 ≡ true
    → let later = commit_transaction (begin_transaction g).1 tx in
      (contains later.active_transactions (begin_transaction g).0.0 ≡ true)
      × (is_dead (mark_deleted r tx) (get_oldest_active_tx later) ≡ true)
      × (is_visible_to_snapshot (mark_deleted r tx) (begin_transaction g).0.1 ≡ true)
unfolding begin_transaction commit_transaction get_snapshot is_visible_to_snapshot mark_deleted
    is_dead
held_snapshot_loses_row r g tx v least room alive seen =
    let active : contains g.active_transactions tx ≡ true =
      minimum-contains g.active_transactions tx least in
    let begun = (begin_transaction g).1 in
    let later = commit_transaction begun tx in
    let left : (m : ℕ) → contains later.active_transactions m ≡ true → tx ≤ m = λ m h. ground (
      arith,
      h,
      contains-remove begun.active_transactions tx m,
      contains-insert g.active_transactions g.next_tx_id m,
      unwrap_or-minimum-le g.active_transactions 0 m,
      least,
      v.issued tx active,
    ) in
    let horizon : tx ≤ get_oldest_active_tx later =
      oldest_above later tx left (omega (arith, room, v.issued tx active)) in
    (
      ground (
        arith,
        contains-remove begun.active_transactions tx g.next_tx_id,
        contains-insert g.active_transactions g.next_tx_id g.next_tx_id,
        v.issued tx active,
      ),
      ground (arith, horizon),
      ground (arith, alive, seen, active),
    )
