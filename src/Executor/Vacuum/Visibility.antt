-- ===== src/Executor/Vacuum/Visibility.antt =====
-- VACUUM of one table, and what snapshots see before and after.
use Prim.Native.String.{String, ◌++◌}
use postgrust_sql.Prelude.{
  ℕ, ◌+◌, ◌%◌, ◌^◌, ◌<◌, ◌≡◌, ◌≢◌, refl, sym, ap, ◌∙◌, inl, inr, true, false, Option, none, some,
  List, [], ◌∷◌, length, retain, All, arith, if◌then◌else◌, subst, Bool-cases, string_eq,
}
use postgrust_sql.Prelude.Int.{show_nat}
use postgrust_sql.Prelude.Map.{get, contains_key}
use postgrust_sql.Prelude.Result.{Result, ok, err, ok_inj}
use postgrust_sql.Core.Row.{Row, is_dead, is_visible_to_snapshot}
use postgrust_sql.Core.Database.{Database}
use postgrust_sql.Transaction.Global.{
  GlobalTransactionManager, minimum, get_oldest_active_tx, get_snapshot,
}
use postgrust_sql.Transaction.Global.Invariant.{IsValid, Reach}
use postgrust_sql.Transaction.Global.Horizon.{dead_row_stays_invisible}
use postgrust_sql.Storage.Page.{Bincode, Fault}
use postgrust_sql.Storage.PageManager.{PageManager, PageFiles}
use postgrust_sql.Storage.PagedTable
use postgrust_sql.Storage.PagedTable.{PagedTable}
use postgrust_sql.Storage.PagedTable.Insertion.{IsTable}
use postgrust_sql.Storage.PagedTable.Sweep.{alive}
use postgrust_sql.Storage.PagedTable.Vacuum.{vacuum_effect}
use postgrust_sql.Storage.DatabaseStorage.{DatabaseStorage, with_table, on_found, put_back}
use postgrust_sql.Executor.Subquery.{QueryResult, success}
use postgrust_sql.Executor.Vacuum.{
  vacuum, vacuum_named, tables_to_vacuum, vacuum_tables, vacuum_table, add_removed, completed,
}

module _ {V : Type 0} where
  -- whoever deleted the row was handed out and is not the least active transaction
  abbrev pub IsSettled : GlobalTransactionManager → Row V → Type 0
  IsSettled g r =
      (xmax : ℕ)
      → r.xmax ≡ some xmax
      → (xmax < g.next_tx_id) × (minimum g.active_transactions ≢ some xmax)

  abbrev pub seen : GlobalTransactionManager → List (Row V) → List (Row V)
  seen h rows = retain (λ r. is_visible_to_snapshot r (get_snapshot h)) rows

  dead_invisible :
      {g h : GlobalTransactionManager} (r : Row V)
      → IsValid g
      → IsSettled g r
      → Reach g h
      → is_dead r (get_oldest_active_tx g) ≡ true
      → is_visible_to_snapshot r (get_snapshot h) ≡ false
  unfolding is_dead
  dead_invisible {g} {h} r v settled path dead = by_xmax r.xmax refl
    where
      by_xmax : (o : Option ℕ) → r.xmax ≡ o → is_visible_to_snapshot r (get_snapshot h) ≡ false
      by_xmax none e = absurd (ground (arith, dead, e))
      by_xmax (some xmax) e =
          dead_row_stays_invisible r xmax v e dead (settled xmax e).0 (settled xmax e).1 path

  seen-alive :
      {g h : GlobalTransactionManager} (codec : Bincode V) (rows : List (Row V))
      → IsValid g
      → All (IsSettled g) rows
      → Reach g h
      → seen h (alive codec (get_oldest_active_tx g) rows) ≡ seen h rows
  seen-alive codec [] v settled path = refl
  seen-alive {g} {h} codec (r ∷ rows) v settled path =
      let rest = seen-alive codec rows v settled.1 path in
      elim (Bool-cases (is_dead r (get_oldest_active_tx g))) [
        | inl dead ↦ rw (dead, dead_invisible r v settled.0 path dead) rest
        | inr not_dead ↦
            rw (not_dead)
              (ap (λ l. if is_visible_to_snapshot r (get_snapshot h) then r ∷ l else l) rest)
      ]

module _ {V : Type 0} (codec : Bincode V) (files : PageFiles) where
  -- the statement on one table is VACUUM of the table
  vacuum-one :
      (db : Database V) (g : GlobalTransactionManager) (s : DatabaseStorage files) (name : String)
      (id : ℕ) (t : PagedTable)
      → contains_key db.tables name ≡ true
      → get s.paged_tables name ≡ some (id, t)
      → vacuum codec files db (some name) g s
        ≡ completed codec files (
            add_removed codec files
              (put_back codec files s name id
                (PagedTable.vacuum codec files (s.page_manager, t) (get_oldest_active_tx g)))
              (λ s'. (ok 0, s')))
  unfolding vacuum vacuum_tables vacuum_table with_table
  vacuum-one db g s name id t known stored =
      let oldest : ℕ = get_oldest_active_tx g in
      let one : tables_to_vacuum db (some name) ≡ ok (name ∷ []) = rw (known) refl in
      ap (vacuum_named codec files oldest s) one
      ∙ ap
          (λ o. completed codec files (
            add_removed codec files
              (on_found codec files s name (λ p. PagedTable.vacuum codec files p oldest) o)
              (λ s'. (ok 0, s'))))
          stored

  IsClean :
      (g h : GlobalTransactionManager) (t : PagedTable) (rows : List (Row V))
      → Result Fault QueryResult × DatabaseStorage files
      → Type 0
  IsClean g h t rows r =
      (n : ℕ) × (table : IsTable codec files r.1.page_manager t) × (r.0
        ≡ ok (success ("VACUUM complete. Removed " ++ (show_nat (n % 2 ^ 64) ++ " dead tuples."))))
      × (n + length table.rows ≡ length rows)
      × (table.rows ≡ alive codec (get_oldest_active_tx g) rows)
      × (seen h table.rows ≡ seen h rows)

  -- the statement after the table was swept
  completed-IsClean :
      (g h : GlobalTransactionManager) (s : DatabaseStorage files) (name : String) (id : ℕ)
      (t : PagedTable) (rows : List (Row V)) (q : Result Fault ℕ × (PageManager files × PagedTable))
      (n : ℕ) (table : IsTable codec files q.1.0 t)
      → q.0 ≡ ok n
      → n + length table.rows ≡ length rows
      → table.rows ≡ alive codec (get_oldest_active_tx g) rows
      → seen h table.rows ≡ seen h rows
      → IsClean g h t rows (
          completed codec files
            (add_removed codec files (put_back codec files s name id q) (λ s'. (ok 0, s'))))
  unfolding IsClean
  completed-IsClean g h s name id t rows (err e, p) n table result counted kept same =
      absurd (ground (arith, result))
  completed-IsClean g h s name id t rows (ok n', p) n table result counted kept same = (
    n,
    table,
    ap (λ k. ok (success ("VACUUM complete. Removed " ++ (show_nat k ++ " dead tuples."))))
        (omega (arith, ok_inj result)),
    counted,
    kept,
    same,
  )

  -- VACUUM of one table, which is valid in a valid state, where the deleters of its rows were handed
  -- out and none is the least active transaction: it succeeds and reports the number of removed rows
  -- (modulo 2^64), the table is valid and has the rows that are not dead (dead are those whose deleter
  -- is at most the horizon), and a snapshot that is taken in this state of the transactions or in a
  -- later one shows the same rows as without VACUUM. Nothing is said of snapshots that were taken
  -- before and are still held.
  pub vacuum_keeps_seen :
      (db : Database V) (g h : GlobalTransactionManager) (s : DatabaseStorage files) (name : String)
      (id : ℕ) (t : PagedTable) (old : IsTable codec files s.page_manager t)
      → contains_key db.tables name ≡ true
      → get s.paged_tables name ≡ some (id, t)
      → IsValid g
      → All (IsSettled g) old.rows
      → Reach g h
      → (n : ℕ) × (table : IsTable codec files
          (vacuum codec files db (some name) g s).1.page_manager
          t)
        × ((vacuum codec files db (some name) g s).0
            ≡ ok (
                success
                  ("VACUUM complete. Removed " ++ (show_nat (n % 2 ^ 64) ++ " dead tuples."))))
        × (n + length table.rows ≡ length old.rows)
        × (table.rows ≡ alive codec (get_oldest_active_tx g) old.rows)
        × (seen h table.rows ≡ seen h old.rows)
  unfolding IsClean
  vacuum_keeps_seen db g h s name id t old known stored v settled path =
      let (n, table, result, rows, counted, _) =
        vacuum_effect codec files (get_oldest_active_tx g) t s.page_manager old in
      let run = vacuum-one db g s name id t known stored in
      subst (IsClean g h t old.rows) (sym run) (
        completed-IsClean g h s name id t old.rows
          (PagedTable.vacuum codec files (s.page_manager, t) (get_oldest_active_tx g)) n table
          result (ap (λ l. n + length l) rows ∙ counted) rows
          (ap (seen h) rows ∙ seen-alive codec old.rows v settled path))
