-- ===== src/Executor/Dml/Storage.antt =====
-- The trait `RowStorage` of src/executor/storage_adapter.rs, on a state `St` in which it keeps its
-- rows. A closure may panic, since a condition may.
use postgrust_sql.Prelude.{ℕ, ◌≡◌, Bool, List, OneMore}
use postgrust_sql.Prelude.Result.{Result, ok}
use postgrust_sql.Core.Row.{Row}
use postgrust_sql.Storage.Page.{Fault}

pub record RowStorage (V : Type 0) (St : Type 0) : Type 0 where
  pub insert : St → Row V → Result Fault (Unit {0}) × St
  pub get_all : St → Result Fault (List (Row V)) × St
  pub update_where :
      St → (Row V → Result Fault Bool) → (Row V → Result Fault (Row V)) → ℕ → Result Fault ℕ × St
  pub delete_where : St → (Row V → Result Fault Bool) → ℕ → Result Fault ℕ × St
  pub count : St → ℕ

-- What the storage promises of its rows, as long as it has room: to read them changes none, and an
-- insertion of a row that it can keep, if it succeeds, adds the row.
pub record RowStorageLaws (V : Type 0) (St : Type 0) (ops : RowStorage V St) : Type 1 where
  pub IsValid : St → Type 0
  pub content : St → List (Row V)
  pub HasRoom : St → Type 0
  pub IsKept : Row V → Type 0
  pub get_all-content : (s : St) → IsValid s → (ops.get_all s).0 ≡ ok (content s)
  pub get_all-IsValid : (s : St) → IsValid s → IsValid (ops.get_all s).1
  pub get_all-HasRoom : (s : St) → IsValid s → HasRoom s → HasRoom (ops.get_all s).1
  pub content-get_all : (s : St) → IsValid s → content (ops.get_all s).1 ≡ content s
  pub insert-IsValid :
      (s : St) (row : Row V)
      → IsValid s
      → HasRoom s
      → IsKept row
      → (ops.insert s row).0 ≡ ok tt
      → IsValid (ops.insert s row).1
  pub content-insert :
      (s : St) (row : Row V)
      → IsValid s
      → HasRoom s
      → IsKept row
      → (ops.insert s row).0 ≡ ok tt
      → OneMore row (content s) (content (ops.insert s row).1)
