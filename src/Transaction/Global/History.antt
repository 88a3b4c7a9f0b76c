-- ===== src/Transaction/Global/History.antt =====
-- The state of the global transaction manager and what its snapshots show, by the calls made so far.
-- The newest call stands first.
use postgrust_sql.Prelude.{
  ℕ, ◌+◌, ◌%◌, ◌<◌, ◌^◌, ◌≡◌, refl, Bool, false, ◌&&◌, ◌||◌, not, Option, none, some, List, [], ◌∷◌,
  nat_beq, arith, nat_eq,
}
use postgrust_sql.Prelude.Set.{contains, contains-insert, contains-remove}
use postgrust_sql.Core.Row.{Row}
use postgrust_sql.Transaction.Global.{
  GlobalTransactionManager, new, get_snapshot, begin_transaction, commit_transaction,
  rollback_transaction,
}

pub data Call : Type 0 where
  begin : Call
  commit rollback : ℕ → Call

-- the state after the calls
abbrev pub run : List Call → GlobalTransactionManager
run [] = new
run (begin ∷ calls) = (begin_transaction (run calls)).1
run (commit tx ∷ calls) = commit_transaction (run calls) tx
run (rollback tx ∷ calls) = rollback_transaction (run calls) tx

-- the identifier of the next transaction: one more than the transactions that have begun
abbrev pub next_of : List Call → ℕ
next_of [] = 1
next_of (begin ∷ calls) = next_of calls + 1
next_of (commit tx ∷ calls) = next_of calls
next_of (rollback tx ∷ calls) = next_of calls

-- whether the transaction has begun and was neither committed nor rolled back since
abbrev pub open_in : List Call → ℕ → Bool
open_in [] tx = false
open_in (begin ∷ calls) tx = nat_beq (next_of calls) tx || open_in calls tx
open_in (commit t ∷ calls) tx = not (nat_beq t tx) && open_in calls tx
open_in (rollback t ∷ calls) tx = not (nat_beq t tx) && open_in calls tx

-- After any calls of begin, commit and rollback, with fewer than 2^64 - 1 of begin among them: the
-- transaction that begins next gets the number of those that have begun, plus one, and the active
-- transactions, which a snapshot lists, are exactly those that have begun and have not ended.
pub run_effect :
    (calls : List Call)
    → next_of calls < 2 ^ 64
    → ((begin_transaction (run calls)).0.0 ≡ next_of calls)
      × ((get_snapshot (run calls)).xmax ≡ next_of calls)
      × ((tx : ℕ) → contains (run calls).active_transactions tx ≡ open_in calls tx)
      × ((tx : ℕ) → contains (get_snapshot (run calls)).active_txs tx ≡ open_in calls tx)
unfolding new contains begin_transaction commit_transaction rollback_transaction get_snapshot
run_effect [] room = (refl, refl, λ tx. refl, λ tx. refl)
run_effect (begin ∷ calls) room =
    let g = run calls in
    let (number, _, active, _) = run_effect calls (omega (arith, room)) in
    let counted : (g.next_tx_id + 1) % 2 ^ 64 ≡ next_of calls + 1 = omega (arith, number, room) in
    let listed : (tx : ℕ)
        → contains (run (begin ∷ calls)).active_transactions tx ≡ open_in (begin ∷ calls) tx =
      λ tx.
        ground (arith, contains-insert g.active_transactions g.next_tx_id tx, active tx, number) in
    (counted, counted, listed, listed)
run_effect (commit t ∷ calls) room =
    let (number, bound, active, _) = run_effect calls room in
    let listed : (tx : ℕ)
        → contains (run (commit t ∷ calls)).active_transactions tx ≡ open_in (commit t ∷ calls) tx =
      λ tx. ground (arith, contains-remove (run calls).active_transactions t tx, active tx) in
    (number, bound, listed, listed)
run_effect (rollback t ∷ calls) room =
    let (number, bound, active, _) = run_effect calls room in
    let listed : (tx : ℕ)
        → contains (run (rollback t ∷ calls)).active_transactions tx
          ≡ open_in (rollback t ∷ calls) tx =
      λ tx. ground (arith, contains-remove (run calls).active_transactions t tx, active tx) in
    (number, bound, listed, listed)

-- whether a row with these two identifiers is one that statements are to see
abbrev pub shown_after : List Call → ℕ → Option ℕ → Bool
shown_after calls xmin none = not (open_in calls xmin)
shown_after calls xmin (some xmax) = not (open_in calls xmin) && open_in calls xmax
