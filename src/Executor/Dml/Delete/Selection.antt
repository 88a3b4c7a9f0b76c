-- ===== src/Executor/Dml/Delete/Selection.antt =====
-- Which rows a DELETE or an UPDATE chooses before it changes the storage.
use postgrust_sql.Prelude.{
  ℕ, zero, suc, ◌+◌, ◌≡◌, ◌↔◌, refl, sym, ap, ◌∙◌, Bool, true, false, Option, some, List, [], ◌∷◌,
  get_elem?, arith, if◌then◌else◌, subst, ◌⊎◌, inl, inr,
}
use postgrust_sql.Prelude.Result.{Result, ok, bind_ok, ok_inj}
use postgrust_sql.Core.Value.{Externals, Value}
use postgrust_sql.Core.Row.{Row, is_visible}
use postgrust_sql.Core.Table.{Column}
use postgrust_sql.Storage.Page.{Fault}
use postgrust_sql.Executor.Compare.{Comparisons}
use postgrust_sql.Executor.Condition.{Condition}
use postgrust_sql.Executor.Dml.Delete.{filter_holds, delete_predicate, selected}

-- the number `j` with the row stands in the list
abbrev pub Listed : {R : Type 0} → ℕ → R → List (ℕ × R) → Type 0
Listed j row [] = ⊥
Listed j row (e ∷ entries) = ((e.0 ≡ j) × (e.1 ≡ row)) ⊎ Listed j row entries

-- the entry is that of a row of the list which meets the test, numbered from `i` on
abbrev pub Chosen : {R : Type 0} → (R → Result Fault Bool) → ℕ → List R → ℕ → R → Type 0
Chosen test i rows j row =
    (k : ℕ) × (j ≡ i + k) × (get_elem? rows k ≡ some row) × (test row ≡ ok true)

module _ {R : Type 0} (test : R → Result Fault Bool) (i : ℕ) (r : R) (rows : List R) where
  Chosen-here :
      (j : ℕ) (row : R) → test r ≡ ok true → i ≡ j → r ≡ row → Chosen test i (r ∷ rows) j row
  Chosen-here j row h e same =
      (0, omega (arith, e), ap some same, subst (λ q. test q ≡ ok true) same h)

  Chosen-later : (j : ℕ) (row : R) → Chosen test (suc i) rows j row → Chosen test i (r ∷ rows) j row
  Chosen-later j row (k, e, at, h) = (suc k, omega (arith, e), at, h)

  Chosen-cons :
      (j : ℕ) (row : R)
      → Chosen test i (r ∷ rows) j row
      → ((i ≡ j) × (r ≡ row) × (test r ≡ ok true)) ⊎ Chosen test (suc i) rows j row
  Chosen-cons j row (zero, e, at, h) =
      let same : r ≡ row = cc (at) in
      inl (omega (arith, e), same, subst (λ q. test q ≡ ok true) (sym same) h)
  Chosen-cons j row (suc k, e, at, h) = inr (k, omega (arith, e), at, h)

  -- one row of the walk
  Listed-step :
      (hit : Bool) (rest : List (ℕ × R)) (j : ℕ) (row : R)
      → test r ≡ ok hit
      → (Listed j row rest ↔ Chosen test (suc i) rows j row)
      → (Listed j row (if hit then (i, r) ∷ rest else rest) ↔ Chosen test i (r ∷ rows) j row)
  Listed-step true rest j row h (forth, back) = (
    λ l. elim l [
      | inl (e, same) ↦ Chosen-here j row h e same
      | inr later ↦ Chosen-later j row (forth later)
    ],
    λ c. elim (Chosen-cons j row c) [
      | inl (e, same, _) ↦ inl (e, same)
      | inr later ↦ inr (back later)
    ],
  )
  Listed-step false rest j row h (forth, back) = (
    λ l. Chosen-later j row (forth l),
    λ c. elim (Chosen-cons j row c) [
      | inl (_, _, passes) ↦ absurd (ground (arith, ok_inj (sym h ∙ passes)))
      | inr later ↦ back later
    ],
  )

module _ {x : Externals} {S : Type 0} (cmp : Comparisons x) (columns : List Column)
    (filter : Option (Condition x S)) (tx : ℕ) where
  Listed-selected :
      (i : ℕ) (rows : List (Row (Value x))) (out : List (ℕ × Row (Value x))) (j : ℕ)
      (row : Row (Value x))
      → selected cmp columns filter tx i rows ≡ ok out
      → (Listed j row out ↔ Chosen (delete_predicate cmp columns filter tx) i rows j row)
  unfolding selected
  Listed-selected i [] out j row h =
      (λ l. absurd (subst (Listed j row) (sym (ok_inj h)) l), λ c. absurd (ground (arith, c.2)))
  Listed-selected i (r ∷ rows) out j row h =
      let (hit, tested, more) = bind_ok (delete_predicate cmp columns filter tx r) _ out h in
      let (rest, found, joined) =
        bind_ok (selected cmp columns filter tx (suc i) rows) _ out more in
      subst
        (λ l. Listed j row l ↔ Chosen (delete_predicate cmp columns filter tx) i (r ∷ rows) j row)
        (ok_inj joined)
        (Listed-step (delete_predicate cmp columns filter tx) i r rows hit rest j row tested
          (Listed-selected (suc i) rows rest j row found))

  -- The rows that DELETE and UPDATE choose for their indexes, where no condition panics, are those
  -- that are visible to the statement's transaction and meet the filter, each with its number.
  pub selected_iff :
      (rows : List (Row (Value x))) (out : List (ℕ × Row (Value x))) (j : ℕ) (row : Row (Value x))
      → selected cmp columns filter tx 0 rows ≡ ok out
      → (Listed j row out ↔ (
          (get_elem? rows j ≡ some row)
          × (is_visible row tx ≡ true)
          × (filter_holds cmp columns filter row ≡ ok true)))
  unfolding delete_predicate
  selected_iff rows out j row h =
      let (forth, back) = Listed-selected 0 rows out j row h in
      (
        λ l.
            let (k, e, at, passes) = forth l in
            let (seen, holds) =
              split (is_visible row tx) (filter_holds cmp columns filter row) passes in
            (subst (λ n. get_elem? rows n ≡ some row) (omega (arith, e)) at, seen, holds),
        λ (at, seen, holds). back (j, omega arith, at, rw (seen) holds),
      )
    where
      split :
          (b : Bool) (o : Result Fault Bool)
          → (if b then o else ok false) ≡ ok true
          → (b ≡ true) × (o ≡ ok true)
      split true o passes = (refl, passes)
      split false o passes = absurd (ground (arith, passes))
