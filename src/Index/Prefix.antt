-- ===== src/Index/Prefix.antt =====
-- The rows that the prefix search of a B-tree index returns.
use package.text.Mathlib.Text.{starts_with}
use package.text.Mathlib.TextLemmas.{append_assoc}
use package.text.Mathlib.TextPositions.{starts_with-append}
use Prim.Native.String.{◌++◌ as ◌+++◌}
use postgrust_sql.Prelude.{
  ℕ, ◌≤◌, String, ◌≡◌, ◌<◌, leb, refl, Bool, true, ◌&&◌, ◌||◌, List, [], ◌∷◌, arith, any, length,
  eq_iff, nat_eq, string_eq, ltb,
}
use postgrust_sql.Prelude.Set.{contains, contains-append}
use postgrust_sql.Prelude.Map.{get}
use postgrust_sql.Core.Value.{Externals, Value, text}
use postgrust_sql.Index.Key.{btree_key, btree_composite_key}
use postgrust_sql.Index.Buckets.{Buckets, rows_at}
use postgrust_sql.Index.BTree.{
  BTreeIndex, insert_in_order, in_key_order, matching_rows, search_prefix,
}

-- some entry under a key with the prefix holds the row
abbrev pub holds : String → ℕ → Buckets → Bool
holds prefix r m = any (λ e. starts_with e.0 prefix && contains e.1 r) m

contains-matching_rows :
    (prefix : String) (m : Buckets) (r : ℕ) → contains (matching_rows prefix m) r ≡ holds prefix r m
unfolding matching_rows contains
contains-matching_rows prefix [] r = refl
contains-matching_rows prefix ((k, rows) ∷ m) r =
    ground
      (arith, contains-matching_rows prefix m r, contains-append rows (matching_rows prefix m) r)

holds-insert_in_order :
    (prefix : String) (r : ℕ) (k : String) (rows : List ℕ) (m : Buckets)
    → holds prefix r (insert_in_order k rows m)
      ≡ ((starts_with k prefix && contains rows r) || holds prefix r m)
unfolding insert_in_order
holds-insert_in_order prefix r k rows [] = refl
holds-insert_in_order prefix r k rows ((j, rs) ∷ m) =
    ground (arith, holds-insert_in_order prefix r k rows m)

holds-in_key_order :
    (prefix : String) (r : ℕ) (m : Buckets) → holds prefix r (in_key_order m) ≡ holds prefix r m
unfolding in_key_order
holds-in_key_order prefix r [] = refl
holds-in_key_order prefix r ((k, rows) ∷ m) =
    ground
      (arith, holds-insert_in_order prefix r k rows (in_key_order m), holds-in_key_order prefix r m)

holds-rows_at :
    (prefix : String) (r : ℕ) (k : String) (m : Buckets)
    → starts_with k prefix ≡ true
    → contains (rows_at m k) r ≡ true
    → holds prefix r m ≡ true
unfolding rows_at get contains
holds-rows_at prefix r k [] s c = ground arith
holds-rows_at prefix r k ((j, rows) ∷ m) s c =
    ground (arith, eq_iff j k, holds-rows_at prefix r k m s)

module _ {x : Externals} (idx : BTreeIndex) (values : List (Value x)) (r : ℕ) where
  -- With at least one value and at most as many as there are columns, a prefix search returns a
  -- row exactly if some key that begins with the key of the values holds it; with none or too many
  -- it returns nothing.
  pub search_prefix_rows : contains (search_prefix idx values) r ≡ (
      ltb 0 (length values)
      && (leb (length values) (length idx.column_names)
          && holds (btree_composite_key values) r idx.tree))
  unfolding search_prefix contains
  search_prefix_rows = ground (
    arith,
    contains-matching_rows (btree_composite_key values) (in_key_order idx.tree) r,
    holds-in_key_order (btree_composite_key values) r idx.tree,
  )

  -- A row that is stored for values of which the key begins with the key of the prefix is found.
  -- So are, then, the rows of longer texts: ("ab") is found under the prefix ("a").
  pub search_prefix_finds :
      (stored : List (Value x))
      → 0 < length values
      → length values ≤ length idx.column_names
      → contains (rows_at idx.tree (btree_composite_key stored)) r ≡ true
      → starts_with (btree_composite_key stored) (btree_composite_key values) ≡ true
      → contains (search_prefix idx values) r ≡ true
  search_prefix_finds stored some_values enough there longer = ground (
    arith,
    search_prefix_rows,
    holds-rows_at (btree_composite_key values) r (btree_composite_key stored) idx.tree longer there,
  )

module _ {x : Externals} where
  longer_text :
      (a b : String) (w : Value x)
      → starts_with
          (btree_composite_key (text (a +++ b) ∷ w ∷ []))
          (btree_composite_key {x = x} (text a ∷ []))
        ≡ true
  unfolding btree_composite_key
  longer_text a b w =
      rw (← append_assoc "T" a b, append_assoc ("T" +++ a))
        (starts_with-append ("T" +++ a) (b +++ ("||" +++ btree_key w)))

  -- A prefix search for a text finds the rows of every text that begins with it: the row of
  -- (a ++ b, w) is found under the prefix (a), for every b, the empty one included.
  pub search_prefix_finds_longer :
      (idx : BTreeIndex) (a b : String) (w : Value x) (r : ℕ)
      → 1 ≤ length idx.column_names
      → contains (rows_at idx.tree (btree_composite_key (text (a +++ b) ∷ w ∷ []))) r ≡ true
      → contains (search_prefix {x = x} idx (text a ∷ [])) r ≡ true
  search_prefix_finds_longer idx a b w r columns there =
      search_prefix_finds idx (text a ∷ []) r (text (a +++ b) ∷ w ∷ []) (omega arith) columns there
        (longer_text a b w)
