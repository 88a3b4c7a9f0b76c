-- ===== src/Index/Search.antt =====
-- What a search returns after an insertion or a deletion, for both kinds of index and for single
-- and composite keys, and the invariant of unique indexes.
use postgrust_sql.Prelude.{
  ℕ, String, ◌≡◌, ◌≢◌, ◌↔◌, refl, true, false, not, ◌&&◌, List, [], ◌∷◌, ◌++◌, arith, ◌==◌, eq_iff,
  retain, length, if◌then◌else◌, string_eq, nat_eq,
}
use postgrust_sql.Prelude.Result.{ok, is_err}
use postgrust_sql.Prelude.Map.{contains_key}
use postgrust_sql.Core.Value.{Externals, Value}
use postgrust_sql.Index.{
  Index, btree, hash, is_unique, insert, delete, search, insert_composite, search_composite,
  column_names,
}
use postgrust_sql.Index.Key.{hash_key, hash_composite_key, btree_key, btree_composite_key}
use postgrust_sql.Index.Hash
use postgrust_sql.Index.BTree
use postgrust_sql.Index.Buckets
use postgrust_sql.Index.Buckets.{
  Buckets, rows_at, push_row, drop_row, rows_at-push_row, rows_at-drop_row, push_row-IsValid,
  drop_row-IsValid, contains_key-rows_at, contains_key-rows_at-ne-nil,
}

abbrev pub buckets : Index → Buckets
buckets (btree idx) = idx.tree
buckets (hash idx) = idx.map

abbrev pub key : {x : Externals} → Index → Value x → String
key (btree _) v = btree_key v
key (hash _) v = hash_key v

abbrev pub IsValid : Index → Type 0
IsValid idx = Buckets.IsValid (is_unique idx) (buckets idx)

module _ {x : Externals} (r : ℕ) where
  -- After an insertion that succeeds, a search for a value with the same key finds the new row
  -- behind the old ones, and every other search finds what it found before.
  pub search-insert :
      (idx idx' : Index) (v w : Value x)
      → insert idx v r ≡ ok idx'
      → search idx' w ≡ (if key idx v == key idx w then search idx v ++ r ∷ [] else search idx w)
  unfolding insert search BTree.insert BTree.search Hash.insert Hash.search
  search-insert (btree idx) idx' v w h =
      ground (arith, rows_at-push_row idx.tree (btree_key v) (btree_key w) r)
  search-insert (hash idx) idx' v w h =
      ground (arith, rows_at-push_row idx.map (hash_key v) (hash_key w) r)

  -- A deletion takes exactly the row number out of the searches with the same key.
  pub search-delete :
      (idx : Index) (v w : Value x)
      → search (delete idx v r) w ≡ (
          if key idx v == key idx w
          then retain (λ row. not (row == r)) (search idx v)
          else search idx w)
  unfolding delete search BTree.delete BTree.search Hash.delete Hash.search
  search-delete (btree idx) v w = rows_at-drop_row idx.tree (btree_key v) (btree_key w) r
  search-delete (hash idx) v w = rows_at-drop_row idx.map (hash_key v) (hash_key w) r

  -- On a valid index an insertion fails exactly if the index is unique and the search finds a row already.
  pub insert_fails_iff :
      (idx : Index) (v : Value x)
      → IsValid idx
      → (is_err (insert idx v r) ≡ true) ↔ ((is_unique idx ≡ true) × (search idx v ≢ []))
  unfolding insert search BTree.insert BTree.search Hash.insert Hash.search is_unique
  insert_fails_iff (btree idx) v valid =
      let absent = contains_key-rows_at idx.is_unique idx.tree (btree_key v) valid in
      let present = contains_key-rows_at-ne-nil idx.is_unique idx.tree (btree_key v) valid in
      (λ e. (ground arith, ground (arith, present)), λ p. ground (arith, absent, p.0, p.1))
  insert_fails_iff (hash idx) v valid =
      let absent = contains_key-rows_at idx.is_unique idx.map (hash_key v) valid in
      let present = contains_key-rows_at-ne-nil idx.is_unique idx.map (hash_key v) valid in
      (λ e. (ground arith, ground (arith, present)), λ p. ground (arith, absent, p.0, p.1))

  -- what an insertion that succeeds has checked and done
  pub insert_effect :
      (idx idx' : Index) (v : Value x)
      → insert idx v r ≡ ok idx'
      → ((is_unique idx && contains_key (buckets idx) (key idx v)) ≡ false)
        × (is_unique idx' ≡ is_unique idx)
        × (buckets idx' ≡ push_row (buckets idx) (key idx v) r)
  unfolding insert BTree.insert Hash.insert is_unique
  insert_effect (btree idx) idx' v h = (ground arith, ground arith, ground arith)
  insert_effect (hash idx) idx' v h = (ground arith, ground arith, ground arith)

  -- neither change turns one kind of index into the other
  pub key-insert :
      (idx idx' : Index) (v w : Value x) → insert idx v r ≡ ok idx' → key idx' w ≡ key idx w
  unfolding insert BTree.insert Hash.insert
  key-insert (btree idx) idx' v w h = ground arith
  key-insert (hash idx) idx' v w h = ground arith

  pub delete_effect :
      (idx : Index) (v w : Value x)
      → (is_unique (delete idx v r) ≡ is_unique idx) × (key (delete idx v r) w ≡ key idx w)
  unfolding delete BTree.delete Hash.delete is_unique
  delete_effect (btree idx) v w = (refl, refl)
  delete_effect (hash idx) v w = (refl, refl)

  -- Insertions that succeed keep the invariant: no empty entries, and at most one row to a key in
  -- a unique index.
  pub insert-IsValid :
      (idx idx' : Index) (v : Value x) → IsValid idx → insert idx v r ≡ ok idx' → IsValid idx'
  insert-IsValid idx idx' v valid h =
      let (guard, unique, stored) = insert_effect idx idx' v h in
      rw (unique, stored) (push_row-IsValid (is_unique idx) (buckets idx) (key idx v) r valid guard)

  -- A deletion keeps the invariant: no empty entries, and at most one row to a key in a unique
  -- index.
  pub delete-IsValid : (idx : Index) (v : Value x) → IsValid idx → IsValid (delete idx v r)
  unfolding delete BTree.delete Hash.delete is_unique
  delete-IsValid (btree idx) v valid = drop_row-IsValid idx.is_unique idx.tree (btree_key v) r valid
  delete-IsValid (hash idx) v valid = drop_row-IsValid idx.is_unique idx.map (hash_key v) r valid

  -- Composite keys: an insertion that succeeds has as many values as the index has columns, and
  -- adds the row behind those that the search for the same values found.
  pub search_composite-insert_composite :
      (idx idx' : Index) (vs : List (Value x))
      → insert_composite idx vs r ≡ ok idx'
      → (length vs ≡ length (column_names idx))
        × (search_composite idx' vs ≡ search_composite idx vs ++ r ∷ [])
  unfolding insert_composite search_composite column_names BTree.insert_composite
      BTree.search_composite Hash.insert_composite Hash.search_composite
  search_composite-insert_composite (btree idx) idx' vs h = (
    ground arith,
    ground (
      arith,
      rows_at-push_row idx.tree (btree_composite_key vs) (btree_composite_key vs) r,
      eq_iff (btree_composite_key vs) (btree_composite_key vs),
    ),
  )
  search_composite-insert_composite (hash idx) idx' vs h = (
    ground arith,
    ground (
      arith,
      rows_at-push_row idx.map (hash_composite_key vs) (hash_composite_key vs) r,
      eq_iff (hash_composite_key vs) (hash_composite_key vs),
    ),
  )
