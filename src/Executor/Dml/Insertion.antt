-- ===== src/Executor/Dml/Insertion.antt =====
-- What an INSERT does to the storage.
use postgrust_sql.Prelude.{
  OneMore, ℕ, String, ◌≡◌, refl, sym, ◌∙◌, Bool, true, false, ◌||◌, Option, none, some, List,
  get_elem?, nat_eq, arith, subst,
}
use postgrust_sql.Prelude.Int.{ℤ}
use postgrust_sql.Prelude.Map.{Map}
use postgrust_sql.Prelude.Result.{Result, ok, err, bind_ok, ok_inj}
use postgrust_sql.Core.Value.{Externals, Value}
use postgrust_sql.Core.Row.{Row, new_with_xmin}
use postgrust_sql.Core.Table.{Column}
use postgrust_sql.Transaction.Global.{GlobalTransactionManager, begin_transaction, current_tx_id}
use postgrust_sql.Storage.Page.{Fault}
use postgrust_sql.Executor.Compare.{Comparisons}
use postgrust_sql.Executor.Condition.{is_null_value}
use postgrust_sql.Executor.Subquery.{QueryResult}
use postgrust_sql.Executor.Dml.{validate_unique_from}
use postgrust_sql.Executor.Dml.Storage.{RowStorage, RowStorageLaws}
use postgrust_sql.Executor.Dml.Uniqueness.{HasNoEqual, HasNoEqual-validate_unique_from}
use postgrust_sql.Executor.Dml.Insert.{
  Session, logged, Outcome, prepare_values, after_prepare, validate_unique_constraints, after_store,
  store_row, after_unique, insert_with_storage,
}
use postgrust_sql.Executor.Dml.Commit.{after_store-Finished}

-- the identifier that the row gets
abbrev pub row_tx : Option ℕ → GlobalTransactionManager → ℕ
row_tx (some tx) g = tx
row_tx none g = g.next_tx_id

module _ {x : Externals} {St : Type 0} (cmp : Comparisons x) (ops : RowStorage (Value x) St)
    (columns : List Column) (table : String) where
  after_store-stored :
      (values : List (Value x)) (tx : ℕ) (auto : Bool) (s : Session St (Value x))
      (q : Result Fault (Unit {0}) × St) (r : QueryResult)
      → (after_store cmp ops columns table values tx auto s q).0 ≡ ok r
      → q.0 ≡ ok tt
  unfolding after_store
  after_store-stored values tx auto s (err e, st) r h = absurd (ground (arith, h))
  after_store-stored values tx auto s (ok _, st) r h = refl

  IsStored : Row (Value x) → Session St (Value x) → Outcome cmp ops columns table → Type 0
  IsStored row s o =
      ((ops.insert s.storage row).0 ≡ ok tt) × (o.1.storage ≡ (ops.insert s.storage row).1)

  after_unique-IsStored :
      (values : List (Value x)) (active : Option ℕ) (s : Session St (Value x)) (r : QueryResult)
      → (after_unique cmp ops columns table values active (ok tt, s)).0 ≡ ok r
      → IsStored
          (new_with_xmin values (row_tx active s.tx_manager))
          s
          (after_unique cmp ops columns table values active (ok tt, s))
  unfolding IsStored after_unique store_row begin_transaction
  after_unique-IsStored values (some tx) s r h =
      let row = new_with_xmin values tx in
      let s' : Session St (Value x) = record s { log = logged row s.log } in
      let stored = ops.insert s.storage row in
      (
        after_store-stored values tx false s' stored r h,
        (after_store-Finished cmp ops columns table values tx false s' stored).0,
      )
  after_unique-IsStored values none s r h =
      let tx = s.tx_manager.next_tx_id in
      let row = new_with_xmin values tx in
      let s' : Session St (Value x) = record s {
        tx_manager = (begin_transaction s.tx_manager).1;
        log = logged row s.log;
      } in
      let stored = ops.insert s.storage row in
      (
        after_store-stored values tx true s' stored r h,
        (after_store-Finished cmp ops columns table values tx true s' stored).0,
      )

  after_unique-passed :
      (values : List (Value x)) (active : Option ℕ)
      (q : Result Fault (Unit {0}) × Session St (Value x)) (r : QueryResult)
      → (after_unique cmp ops columns table values active q).0 ≡ ok r
      → q.0 ≡ ok tt
  unfolding after_unique
  after_unique-passed values active (err e, s) r h = absurd (ground (arith, h))
  after_unique-passed values active (ok _, s) r h = refl

  module _ (laws : RowStorageLaws (Value x) St ops) where
    open laws use {IsValid, HasRoom, IsKept, content}

    -- The storage of `s'` has one row more than that of `s`, which has the prepared values, and no
    -- equal value in a unique column among the rows visible before.
    pub record IsInserted (prepared : Result Fault (List (Value x))) (active : Option ℕ)
        (s s' : Session St (Value x)) : Type 0 where
      pub ordered : List (Value x)
      pub were_prepared : prepared ≡ ok ordered
      pub valid : IsValid s'.storage
      pub stored :
          OneMore
            (new_with_xmin ordered (row_tx active s.tx_manager))
            (content s.storage)
            (content s'.storage)
      pub unique :
          (i : ℕ) (col : Column) (v : Value x)
          → get_elem? columns i ≡ some col
          → get_elem? ordered i ≡ some v
          → col.unique || col.primary_key ≡ true
          → is_null_value v ≡ false
          → HasNoEqual cmp (content s.storage) (current_tx_id s.tx_manager) i v

    -- after the rows were read and the unique columns checked
    stored_row :
        (values : List (Value x)) (active : Option ℕ) (s : Session St (Value x)) (r : QueryResult)
        → IsValid s.storage
        → HasRoom s.storage
        → IsKept (new_with_xmin values (row_tx active s.tx_manager))
        → (after_unique cmp ops columns table values active
            (ok tt, record s { storage = (ops.get_all s.storage).1 })).0
          ≡ ok r
        → validate_unique_from cmp (content s.storage) (current_tx_id s.tx_manager) 0 columns values
          ≡ ok tt
        → IsInserted
            (ok values)
            active
            s
            (after_unique cmp ops columns table values active
              (ok tt, record s { storage = (ops.get_all s.storage).1 })).1
    unfolding IsStored
    stored_row values active s r valid room kept h checked =
        let read = (ops.get_all s.storage).1 in
        let row = new_with_xmin values (row_tx active s.tx_manager) in
        let (inserted, left) =
          after_unique-IsStored values active (record s { storage = read }) r h in
        let read_valid = laws.get_all-IsValid s.storage valid in
        let read_room = laws.get_all-HasRoom s.storage valid room in
        record {
          ordered = values;
          were_prepared = refl;
          valid =
              subst IsValid (sym left)
                (laws.insert-IsValid read row read_valid read_room kept inserted);
          stored =
              subst (λ t. OneMore row (content s.storage) (content t)) (sym left)
                (subst (λ rows. OneMore row rows (content (ops.insert read row).1))
                  (laws.content-get_all s.storage valid)
                  (laws.content-insert read row read_valid read_room kept inserted));
          unique = λ i col v.
              HasNoEqual-validate_unique_from cmp (content s.storage) (current_tx_id s.tx_manager)
                columns values i col v checked;
        }

    after_prepare-IsInserted :
        (prepared : Result Fault (List (Value x))) (active : Option ℕ) (s : Session St (Value x))
        (r : QueryResult)
        → IsValid s.storage
        → HasRoom s.storage
        → ((ordered : List (Value x))
            → prepared ≡ ok ordered
            → IsKept (new_with_xmin ordered (row_tx active s.tx_manager)))
        → (after_prepare cmp ops columns table active s prepared).0 ≡ ok r
        → IsInserted prepared active s (after_prepare cmp ops columns table active s prepared).1
    unfolding after_prepare validate_unique_constraints
    after_prepare-IsInserted (err e) active s r valid room kept h = absurd (ground (arith, h))
    after_prepare-IsInserted (ok values) active s r valid room kept h =
        let q = validate_unique_constraints cmp ops columns table values s in
        let passed : q.0 ≡ ok tt = after_unique-passed values active q r h in
        let (rows, read, checked) = bind_ok (ops.get_all s.storage).0 _ tt passed in
        let same : rows ≡ content s.storage =
          ok_inj (sym read ∙ laws.get_all-content s.storage valid) in
        subst
          (λ o.
            IsInserted (ok values) active s
              (after_unique cmp ops columns table values active (o, q.1)).1)
          (sym passed)
          (stored_row values active s r valid room (kept values refl)
            (subst (λ o. (after_unique cmp ops columns table values active (o, q.1)).0 ≡ ok r)
              passed h)
            (subst
              (λ l.
                validate_unique_from cmp l (current_tx_id s.tx_manager) 0 columns values ≡ ok tt)
              same checked))

    -- An INSERT that succeeds on a valid storage with room, which can keep the row of the prepared
    -- values: its values were prepared without an error, the
    -- storage is valid and holds one row more, of these values and the statement's transaction, and
    -- in a unique column no row that was visible had a value equal to a value that is not NULL.
    pub insert_with_storage_effect :
        (table_sequences : Map String ℤ) (names : Option (List String)) (values : List (Value x))
        (active : Option ℕ) (s : Session St (Value x)) (r : QueryResult)
        → IsValid s.storage
        → HasRoom s.storage
        → ((ordered : List (Value x))
            → prepare_values cmp ops columns table table_sequences names values ≡ ok ordered
            → IsKept (new_with_xmin ordered (row_tx active s.tx_manager)))
        → (insert_with_storage cmp ops columns table table_sequences names values active s).0 ≡ ok r
        → IsInserted
            (prepare_values cmp ops columns table table_sequences names values)
            active
            s
            (insert_with_storage cmp ops columns table table_sequences names values active s).1
    unfolding insert_with_storage
    insert_with_storage_effect table_sequences names values active s r valid room kept h =
        after_prepare-IsInserted (prepare_values cmp ops columns table table_sequences names values)
          active s r valid room kept h
