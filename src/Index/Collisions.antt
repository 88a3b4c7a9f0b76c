-- ===== src/Index/Collisions.antt =====
-- Different values that an index takes for one key.
use Prim.Native.String.{◌++◌ as ◌+++◌}
use package.text.Mathlib.TextLemmas.{append_assoc}
use postgrust_sql.Prelude.{ℕ, String, ◌≡◌, [], ◌∷◌, ◌++◌, arith, string_eq, eq_iff, nat_eq}
use postgrust_sql.Prelude.Int.{ℤ, show_int}
use postgrust_sql.Prelude.Result.{ok}
use postgrust_sql.Core.Value.{Externals, integer, small_int, text, to_string}
use postgrust_sql.Index.{Index, hash, insert, search}
use postgrust_sql.Index.Hash.{HashIndex}
use postgrust_sql.Index.Key.{hash_key, hash_composite_key, btree_composite_key}
use postgrust_sql.Index.Search.{search-insert}

separator_then_tag : (s : String) → "||T" +++ s ≡ "||" +++ ("T" +++ s)
separator_then_tag s = append_assoc "||" "T" s

module _ (x : Externals) where
  -- A composite key is the parts joined by "||", so two rows of texts that differ get one key when
  -- the separator stands inside a text, in a hash index and, with the tag of texts, in a B-tree.
  pub composite_keys_collide :
      (a b c : String)
      → (hash_composite_key {x = x} (text (a +++ ("||" +++ b)) ∷ text c ∷ [])
          ≡ hash_composite_key {x = x} (text a ∷ text (b +++ ("||" +++ c)) ∷ []))
        × (btree_composite_key {x = x} (text (a +++ ("||T" +++ b)) ∷ text c ∷ [])
            ≡ btree_composite_key {x = x} (text a ∷ text (b +++ ("||T" +++ c)) ∷ []))
  unfolding hash_composite_key btree_composite_key to_string
  composite_keys_collide a b c = (simp append_assoc, simp (append_assoc, separator_then_tag))

  -- A hash index does not tell types apart: the row of an integer is found under the text of its
  -- digits, and under a SMALLINT of the same value.
  pub hash_ignores_types :
      (idx : HashIndex) (idx' : Index) (i : ℤ) (r : ℕ)
      → insert {x = x} (hash idx) (integer i) r ≡ ok idx'
      → (search {x = x} idx' (text (show_int i)) ≡ search {x = x} (hash idx) (integer i) ++ r ∷ [])
        × (search {x = x} idx' (small_int i) ≡ search {x = x} (hash idx) (integer i) ++ r ∷ [])
  unfolding hash_key to_string
  hash_ignores_types idx idx' i r h = (
    ground (
      arith,
      search-insert r (hash idx) idx' (integer i) (text (show_int i)) h,
      eq_iff (show_int i) (show_int i),
    ),
    ground (
      arith,
      search-insert r (hash idx) idx' (integer i) (small_int i) h,
      eq_iff (show_int i) (show_int i),
    ),
  )
