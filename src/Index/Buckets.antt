-- ===== src/Index/Buckets.antt =====
-- The map from keys to row numbers that src/index/hash.rs keeps in a `HashMap` and
-- src/index/btree.rs in a `BTreeMap`, with the changes that both make to it.
use postgrust_sql.Prelude.{
  ℕ, String, ◌≡◌, refl, Bool, true, false, not, Option, none, some, List, [], ◌∷◌, ◌++◌, arith,
  ◌==◌, eq_iff, if◌then◌else◌, retain, length, nat_eq, string_eq, ◌&&◌, ◌≢◌, ◌≤◌, ◌+◌,
}
use postgrust_sql.Prelude.Map.{Map, get, insert, remove, get-insert, get-remove, contains_key}

abbrev pub Buckets : Type 0
Buckets = Map String (List ℕ)

-- `map.get(&key).cloned().unwrap_or_default()`
unfoldable pub rows_at : Buckets → String → List ℕ
rows_at m key = elim (get m key) [ none ↦ [] | some rows ↦ rows ]

-- `map.entry(key).or_default().push(row_index)`
unfoldable pub push_row : Buckets → String → ℕ → Buckets
unfolding rows_at
push_row m key row_index = insert m key (rows_at m key ++ row_index ∷ [])

store_or_remove : Buckets → String → List ℕ → Buckets
store_or_remove m key [] = remove m key
store_or_remove m key (r ∷ rows) = insert m key (r ∷ rows)

-- `if let Some(indices) = map.get_mut(&key) { indices.retain(..); if indices.is_empty() { remove } }`
unfoldable pub drop_row : Buckets → String → ℕ → Buckets
unfolding store_or_remove
drop_row m key row_index = elim (get m key) [
  | none ↦ m
  | some rows ↦ store_or_remove m key (retain (λ idx. not (idx == row_index)) rows)
]

-- `map.len()` and the sum of the lengths
unfoldable pub key_count : Buckets → ℕ
key_count m = length m

unfoldable pub entry_count : Buckets → ℕ
entry_count [] = 0
entry_count ((k, rows) ∷ m) = length rows + entry_count m

pub rows_at-push_row :
    (m : Buckets) (k j : String) (r : ℕ)
    → rows_at (push_row m k r) j ≡ (if k == j then rows_at m k ++ r ∷ [] else rows_at m j)
unfolding rows_at push_row
rows_at-push_row m k j r = ground (arith, get-insert m k j (rows_at m k ++ r ∷ []))

rows_at-store_or_remove :
    (m : Buckets) (k j : String) (rows : List ℕ)
    → rows_at (store_or_remove m k rows) j ≡ (if k == j then rows else rows_at m j)
unfolding rows_at store_or_remove
rows_at-store_or_remove m k j [] = ground (arith, get-remove m k j)
rows_at-store_or_remove m k j (r ∷ rows) = ground (arith, get-insert m k j (r ∷ rows))

pub rows_at-drop_row :
    (m : Buckets) (k j : String) (r : ℕ)
    → rows_at (drop_row m k r) j
      ≡ (if k == j then retain (λ idx. not (idx == r)) (rows_at m k) else rows_at m j)
unfolding rows_at drop_row
rows_at-drop_row m k j r = by_entry (get m k) refl
  where
    by_entry :
        (o : Option (List ℕ))
        → get m k ≡ o
        → rows_at (drop_row m k r) j
          ≡ (if k == j then retain (λ idx. not (idx == r)) (rows_at m k) else rows_at m j)
    by_entry none e = ground (arith, e, eq_iff k j)
    by_entry (some rows) e =
        ground (arith, e, rows_at-store_or_remove m k j (retain (λ idx. not (idx == r)) rows))

-- No key has an empty list of rows, and if `unique` none has two.
pub record IsValid (unique : Bool) (m : Buckets) : Type 0 where
  pub nonempty : (k : String) → get m k ≢ some []
  pub single : unique ≡ true → (k : String) → length (rows_at m k) ≤ 1

pub empty-IsValid : (unique : Bool) → IsValid unique []
unfolding get rows_at
empty-IsValid unique = record { nonempty = λ k. cc; single = λ u k. omega arith }

pub contains_key-rows_at :
    (unique : Bool) (m : Buckets) (k : String)
    → IsValid unique m
    → contains_key m k ≡ false
    → rows_at m k ≡ []
unfolding contains_key rows_at
contains_key-rows_at unique m k v h = ground arith

pub contains_key-rows_at-ne-nil :
    (unique : Bool) (m : Buckets) (k : String)
    → IsValid unique m
    → contains_key m k ≡ true
    → rows_at m k ≢ []
unfolding contains_key rows_at
contains_key-rows_at-ne-nil unique m k v h = ground (arith, v.nonempty k)

snoc-ne-nil : (xs : List ℕ) (x : ℕ) → xs ++ x ∷ [] ≢ []
snoc-ne-nil [] x h = cc
snoc-ne-nil (y ∷ xs) x h = cc

get-push_row-ne-nil :
    (m : Buckets) (k j : String) (r : ℕ) → get m j ≢ some [] → get (push_row m k r) j ≢ some []
unfolding push_row
get-push_row-ne-nil m k j r h e =
    ground (arith, get-insert m k j (rows_at m k ++ r ∷ []), snoc-ne-nil (rows_at m k) r)

get-store_or_remove-ne-nil :
    (m : Buckets) (k j : String) (rows : List ℕ)
    → get m j ≢ some []
    → get (store_or_remove m k rows) j ≢ some []
unfolding store_or_remove
get-store_or_remove-ne-nil m k j [] h e = ground (arith, get-remove m k j)
get-store_or_remove-ne-nil m k j (r ∷ rows) h e = ground (arith, get-insert m k j (r ∷ rows))

get-drop_row-ne-nil :
    (m : Buckets) (k j : String) (r : ℕ) → get m j ≢ some [] → get (drop_row m k r) j ≢ some []
unfolding drop_row
get-drop_row-ne-nil m k j r h = drop_cases (get m k)
  where
    drop_cases :
        (o : Option (List ℕ))
        → get
            (elim o [
              | none ↦ m
              | some rows ↦ store_or_remove m k (retain (λ idx. not (idx == r)) rows)
            ])
            j
          ≢ some []
    drop_cases none = h
    drop_cases (some rows) =
        get-store_or_remove-ne-nil m k j (retain (λ idx. not (idx == r)) rows) h

pub push_row-IsValid :
    (unique : Bool) (m : Buckets) (k : String) (r : ℕ)
    → IsValid unique m
    → (unique && contains_key m k) ≡ false
    → IsValid unique (push_row m k r)
push_row-IsValid unique m k r v guard = record {
  nonempty = λ j. get-push_row-ne-nil m k j r (v.nonempty j);
  single = λ u j.
      ground (arith, rows_at-push_row m k j r, contains_key-rows_at unique m k v, v.single u j);
}

retain-length-le : (p : ℕ → Bool) (xs : List ℕ) → length (retain p xs) ≤ length xs
retain-length-le p [] = omega arith
retain-length-le p (x ∷ xs) = ground (arith, retain-length-le p xs)

pub drop_row-IsValid :
    (unique : Bool) (m : Buckets) (k : String) (r : ℕ)
    → IsValid unique m
    → IsValid unique (drop_row m k r)
drop_row-IsValid unique m k r v = record {
  nonempty = λ j. get-drop_row-ne-nil m k j r (v.nonempty j);
  single = λ u j. ground (
    arith,
    rows_at-drop_row m k j r,
    v.single u k,
    v.single u j,
    retain-length-le (λ idx. not (idx == r)) (rows_at m k),
  );
}
