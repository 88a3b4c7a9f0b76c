-- ===== src/Prelude/Map.antt =====
-- `HashMap` as an association list. Iteration order is not observable in what is modelled here.
use mathlib.Core.Path.{◌≡◌, refl}
use mathlib.Core.Bool.{Bool, true, false}
use mathlib.Core.Option.{Option, none, some}
use mathlib.Core.List.{List, [], ◌∷◌}
use native.Mathlib.Omega.{arith}
use postgrust_sql.Prelude.Tests.{Eq, ◌==◌, if◌then◌else◌}

abbrev pub Map {ℓ κ} : Type ℓ → Type κ → Type (ℓ ⊔ κ)
Map K V = List (K × V)

module _ {ℓ κ} {K : Type ℓ} {V : Type κ} ⦃e : Eq K⦄ where
  unfoldable pub get : Map K V → K → Option V
  get [] k = none
  get ((j, v) ∷ m) k = if j == k then some v else get m k

  unfoldable pub contains_key : Map K V → K → Bool
  unfolding get
  contains_key m k = elim (get m k) [ none ↦ false | some _ ↦ true ]

  unfoldable pub remove : Map K V → K → Map K V
  remove [] k = []
  remove ((j, v) ∷ m) k = let rest = remove m k in if j == k then rest else (j, v) ∷ rest

  -- the new entry takes the place of an old one
  unfoldable pub insert : Map K V → K → V → Map K V
  unfolding remove
  insert m k v = (k, v) ∷ remove m k

  pub get-remove : (m : Map K V) (k j : K) → get (remove m k) j ≡ (if k == j then none else get m j)
  unfolding get remove
  get-remove [] k j = ground arith
  get-remove ((i, v) ∷ m) k j =
      ground (arith, get-remove m k j, e.beq_iff i k, e.beq_iff i j, e.beq_iff k j)

  pub get-insert :
      (m : Map K V) (k j : K) (v : V) → get (insert m k v) j ≡ (if k == j then some v else get m j)
  unfolding get insert
  get-insert m k j v = ground (arith, get-remove m k j)

  pub contains_key_iff :
      (m : Map K V) (k : K) → contains_key m k ≡ true → (v : V) × (get m k ≡ some v)
  unfolding contains_key
  contains_key_iff m k h = ground arith

unfoldable pub on_some {κ} : {V : Type κ} → (V → V) → Option V → Option V
on_some f none = none
on_some f (some v) = some (f v)

module _ {ℓ κ} {K : Type ℓ} {V : Type κ} where
  -- a change to every value, `for v in map.values_mut()`
  unfoldable pub map_values : (V → V) → Map K V → Map K V
  map_values f [] = []
  map_values f ((k, v) ∷ m) = (k, f v) ∷ map_values f m

module _ {ℓ κ} {K : Type ℓ} {V : Type κ} ⦃e : Eq K⦄ where
  -- a change through `get_mut`: nothing happens at a missing key
  unfoldable pub modify : Map K V → K → (V → V) → Map K V
  unfolding get insert
  modify m k f = elim (get m k) [ none ↦ m | some v ↦ insert m k (f v) ]

  pub get-map_values :
      (f : V → V) (m : Map K V) (k : K) → get (map_values f m) k ≡ on_some f (get m k)
  unfolding get map_values on_some
  get-map_values f [] k = ground arith
  get-map_values f ((j, v) ∷ m) k = ground (arith, get-map_values f m k)

  pub get-modify :
      (m : Map K V) (k j : K) (f : V → V)
      → get (modify m k f) j ≡ (if k == j then on_some f (get m j) else get m j)
  unfolding modify on_some
  get-modify m k j f = by_entry (get m k) refl
    where
      by_entry :
          (o : Option V)
          → get m k ≡ o
          → get (modify m k f) j ≡ (if k == j then on_some f (get m j) else get m j)
      by_entry none h = ground (arith, h, e.beq_iff k j)
      by_entry (some v) h = ground (arith, h, e.beq_iff k j, get-insert m k j (f v))
