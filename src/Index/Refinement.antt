-- ===== src/Index/Refinement.antt =====
-- An index that is not unique, against its specification: a log of (key, row) pairs, in the order
-- of insertion.
use postgrust_sql.Prelude.{
  ℕ, String, ◌≡◌, ◌∙◌, false, not, ◌&&◌, List, [], ◌∷◌, ◌++◌, arith, ◌==◌, eq_iff, retain,
  if◌then◌else◌, string_eq, nat_eq,
}
use postgrust_sql.Prelude.Result.{ok, err}
use postgrust_sql.Core.Value.{Externals, Value}
use postgrust_sql.Index.{Index, btree, hash, is_unique, insert, delete, search}
use postgrust_sql.Index.Search.{
  key, search-insert, search-delete, insert_effect, delete_effect, key-insert,
}
use postgrust_sql.Index.Hash
use postgrust_sql.Index.BTree

pub data Change (x : Externals) : Type 0 where
  add : Value x → ℕ → Change x
  drop : Value x → ℕ → Change x

abbrev pub Log : Type 0
Log = List (String × ℕ)

-- the rows that the log holds for a key
unfoldable pub rows_of : String → Log → List ℕ
rows_of k [] = []
rows_of k ((j, r) ∷ log) = if j == k then r ∷ rows_of k log else rows_of k log

module _ {x : Externals} where
  -- the callers leave the index as it is when an insertion fails
  pub change : Index → Change x → Index
  change idx (add v r) = elim (insert idx v r) [ ok idx' ↦ idx' | err _ ↦ idx ]
  change idx (drop v r) = delete idx v r

  pub run : Index → List (Change x) → Index
  run idx [] = idx
  run idx (c ∷ cs) = run (change idx c) cs

  -- what one change does to the log; `kind` fixes how values become keys
  pub log_change : Index → Log → Change x → Log
  log_change kind log (add v r) = log ++ (key kind v, r) ∷ []
  log_change kind log (drop v r) = retain (λ e. not (e.0 == key kind v && e.1 == r)) log

  pub log_run : Index → Log → List (Change x) → Log
  log_run kind log [] = log
  log_run kind log (c ∷ cs) = log_run kind (log_change kind log c) cs

rows_of-append :
    (k j : String) (r : ℕ) (log : Log)
    → rows_of k (log ++ (j, r) ∷ []) ≡ (if j == k then rows_of k log ++ r ∷ [] else rows_of k log)
unfolding rows_of
rows_of-append k j r [] = ground arith
rows_of-append k j r ((i, s) ∷ log) = ground (arith, rows_of-append k j r log)

rows_of-retain :
    (k j : String) (r : ℕ) (log : Log)
    → rows_of k (retain (λ e. not (e.0 == j && e.1 == r)) log)
      ≡ (if j == k then retain (λ row. not (row == r)) (rows_of k log) else rows_of k log)
unfolding rows_of
rows_of-retain k j r [] = ground arith
rows_of-retain k j r ((i, s) ∷ log) =
    ground (arith, rows_of-retain k j r log, eq_iff i j, eq_iff i k, eq_iff j k)

-- The index answers every search as the log does, is of the kind, and is not unique.
pub record Implements (x : Externals) (kind idx : Index) (log : Log) : Type 0 where
  pub many : is_unique idx ≡ false
  pub same_keys : (v : Value x) → key idx v ≡ key kind v
  pub answers : (v : Value x) → search idx v ≡ rows_of (key kind v) log

module _ {x : Externals} where
  change-add :
      (idx : Index) (v : Value x) (r : ℕ)
      → is_unique idx ≡ false
      → insert idx v r ≡ ok (change idx (add v r))
  unfolding change insert is_unique BTree.insert Hash.insert
  change-add (btree idx) v r h = ground arith
  change-add (hash idx) v r h = ground arith

  change-Implements :
      (kind idx : Index) (log : Log) (c : Change x)
      → Implements x kind idx log
      → Implements x kind (change idx c) (log_change kind log c)
  unfolding log_change
  change-Implements kind idx log (add v r) i =
      let idx' = change idx (add v r) in
      let done = change-add idx v r i.many in
      record {
        many = (insert_effect r idx idx' v done).1 ∙ i.many;
        same_keys = λ w. key-insert r idx idx' v w done ∙ i.same_keys w;
        answers = λ w. ground (
          arith,
          search-insert r idx idx' v w done,
          rows_of-append (key kind w) (key kind v) r log,
          i.same_keys v,
          i.same_keys w,
          i.answers v,
          i.answers w,
          eq_iff (key kind v) (key kind w),
        );
      }
  change-Implements kind idx log (drop v r) i =
      unfold change in
      record {
        many = (delete_effect r idx v v).0 ∙ i.many;
        same_keys = λ w. (delete_effect r idx v w).1 ∙ i.same_keys w;
        answers = λ w. ground (
          arith,
          search-delete r idx v w,
          rows_of-retain (key kind w) (key kind v) r log,
          i.same_keys v,
          i.same_keys w,
          i.answers v,
          i.answers w,
          eq_iff (key kind v) (key kind w),
        );
      }

  -- After any sequence of insertions and deletions, an index that is not unique answers every
  -- search with the rows that the log of (key, row) pairs holds for the key, in the log's order.
  pub run-Implements :
      (kind idx : Index) (log : Log) (cs : List (Change x))
      → Implements x kind idx log
      → Implements x kind (run idx cs) (log_run kind log cs)
  unfolding run log_run
  run-Implements kind idx log [] i = i
  run-Implements kind idx log (c ∷ cs) i =
      run-Implements kind (change idx c) (log_change kind log c) cs
        (change-Implements kind idx log c i)
