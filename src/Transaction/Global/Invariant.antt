-- ===== src/Transaction/Global/Invariant.antt =====
-- Runs of the global transaction manager, and what holds after each of them.
use postgrust_sql.Prelude.{
  ℕ, ◌+◌, ◌≤◌, ◌<◌, ◌^◌, ◌≡◌, refl, true, false, none, some, List, [], ◌∷◌, arith, nat_eq,
}
use postgrust_sql.Prelude.Set.{contains, contains-insert, contains-remove}
use postgrust_sql.Transaction.Global.{
  GlobalTransactionManager, new, minimum, unwrap_or, begin_transaction, commit_transaction,
  rollback_transaction,
}

-- One call of a method that changes the state; a counter at its last value is not used again.
pub data Step : GlobalTransactionManager → GlobalTransactionManager → Type 0 where
  begin :
      (g : GlobalTransactionManager) → g.next_tx_id + 1 < 2 ^ 64 → Step g (begin_transaction g).1
  commit : (g : GlobalTransactionManager) (tx : ℕ) → Step g (commit_transaction g tx)
  rollback : (g : GlobalTransactionManager) (tx : ℕ) → Step g (rollback_transaction g tx)

pub data Reach (g : GlobalTransactionManager) : GlobalTransactionManager → Type 0 where
  here : Reach g g
  next : {h k : GlobalTransactionManager} → Reach g h → Step h k → Reach g k

-- Active identifiers were handed out: they lie between 1 and the counter.
pub record IsValid (g : GlobalTransactionManager) : Type 0 where
  pub started : 1 ≤ g.next_tx_id
  pub issued : (tx : ℕ) → contains g.active_transactions tx ≡ true → (1 ≤ tx) × (tx < g.next_tx_id)

pub new-IsValid : IsValid new
unfolding new contains
new-IsValid = record { started = omega arith; issued = λ tx h. ground arith }

pub Step-IsValid : {g h : GlobalTransactionManager} → Step g h → IsValid g → IsValid h
unfolding begin_transaction commit_transaction rollback_transaction
Step-IsValid (begin g room) v = record {
  started = omega (arith, v.started);
  issued = λ tx h.
      ground (arith, contains-insert g.active_transactions g.next_tx_id tx, v.issued tx, v.started);
}
Step-IsValid (commit g t) v = record {
  started = v.started;
  issued = λ tx h. ground (arith, contains-remove g.active_transactions t tx, v.issued tx);
}
Step-IsValid (rollback g t) v = record {
  started = v.started;
  issued = λ tx h. ground (arith, contains-remove g.active_transactions t tx, v.issued tx);
}

-- In every state that calls of begin, commit and rollback reach from a valid one, the active
-- identifiers lie between 1 and the counter.
pub Reach-IsValid : {g h : GlobalTransactionManager} → Reach g h → IsValid g → IsValid h
Reach-IsValid here v = v
Reach-IsValid (next r s) v = Step-IsValid s (Reach-IsValid r v)

pub reachable-IsValid : {g : GlobalTransactionManager} → Reach new g → IsValid g
reachable-IsValid r = Reach-IsValid r new-IsValid

-- What was handed out and is no longer active stays so.
pub record IsSettled (tx : ℕ) (g : GlobalTransactionManager) : Type 0 where
  pub past : tx < g.next_tx_id
  pub inactive : contains g.active_transactions tx ≡ false

Step-IsSettled :
    {g h : GlobalTransactionManager} (tx : ℕ) → Step g h → IsSettled tx g → IsSettled tx h
unfolding begin_transaction commit_transaction rollback_transaction
Step-IsSettled tx (begin g room) s = record {
  past = omega (arith, s.past);
  inactive =
      ground (arith, contains-insert g.active_transactions g.next_tx_id tx, s.past, s.inactive);
}
Step-IsSettled tx (commit g t) s = record {
  past = s.past;
  inactive = ground (arith, contains-remove g.active_transactions t tx, s.inactive);
}
Step-IsSettled tx (rollback g t) s = record {
  past = s.past;
  inactive = ground (arith, contains-remove g.active_transactions t tx, s.inactive);
}

pub Reach-IsSettled :
    {g h : GlobalTransactionManager} (tx : ℕ) → Reach g h → IsSettled tx g → IsSettled tx h
Reach-IsSettled tx here s = s
Reach-IsSettled tx (next r st) s = Step-IsSettled tx st (Reach-IsSettled tx r s)

-- A commit settles its transaction.
pub commit-IsSettled :
    (g : GlobalTransactionManager) (tx : ℕ)
    → tx < g.next_tx_id
    → IsSettled tx (commit_transaction g tx)
unfolding commit_transaction
commit-IsSettled g tx h = record {
  past = h;
  inactive = ground (arith, contains-remove g.active_transactions tx tx);
}

pub minimum-none : (xs : List ℕ) (tx : ℕ) → minimum xs ≡ none → contains xs tx ≡ false
unfolding minimum contains
minimum-none [] tx h = refl
minimum-none (x ∷ xs) tx h = ground arith

pub unwrap_or-minimum-le :
    (xs : List ℕ) (d tx : ℕ) → contains xs tx ≡ true → unwrap_or (minimum xs) d ≤ tx
unfolding minimum contains unwrap_or
unwrap_or-minimum-le [] d tx c = ground arith
unwrap_or-minimum-le (x ∷ xs) d tx c =
    ground (arith, minimum-none xs tx, unwrap_or-minimum-le xs d tx)

pub minimum-contains : (xs : List ℕ) (m : ℕ) → minimum xs ≡ some m → contains xs m ≡ true
unfolding minimum contains
minimum-contains [] m h = ground arith
minimum-contains (x ∷ xs) m h = ground (arith, minimum-contains xs m)
