-- ===== src/Core/Row.antt =====
-- src/core/row.rs: one version of a row and its visibility tests. The value type is a parameter: no
-- method looks into a value.
use postgrust_sql.Prelude.{
  ℕ, Bool, true, false, ◌&&◌, Option, none, some, List, leb, ltb, if◌then◌else◌, nat_eq,
}
use postgrust_sql.Prelude.Set.{contains}
use postgrust_sql.Transaction.Snapshot.{Snapshot}

pub record Row (V : Type 0) : Type 0 where
  pub values : List V
  pub xmin : ℕ
  pub xmax : Option ℕ

-- `self.xmax.is_none_or(|xmax| xmax > current_tx_id)`
not_deleted_at : Option ℕ → ℕ → Bool
not_deleted_at none tx = true
not_deleted_at (some xmax) tx = ltb tx xmax

-- the third test of `is_visible_to_snapshot`, on the row's `xmax`
survives : Option ℕ → Snapshot → Bool
survives none s = true
survives (some xmax) s =
    if contains s.active_txs xmax then true else if leb s.xmax xmax then true else false

dead_at : Option ℕ → ℕ → Bool
dead_at (some xmax) oldest = leb xmax oldest
dead_at none oldest = false

module _ {V : Type 0} where
  unfoldable pub new : List V → Row V
  new values = record { values = values; xmin = 0; xmax = none }

  unfoldable pub new_with_xmin : List V → ℕ → Row V
  new_with_xmin values xmin = record { values = values; xmin = xmin; xmax = none }

  unfoldable pub is_visible : Row V → ℕ → Bool
  unfolding not_deleted_at
  is_visible r current_tx_id = leb r.xmin current_tx_id && not_deleted_at r.xmax current_tx_id

  unfoldable pub is_visible_to_snapshot : Row V → Snapshot → Bool
  unfolding survives
  is_visible_to_snapshot r s =
      if contains s.active_txs r.xmin
      then false
      else if ltb s.xmax r.xmin
      then false
      else survives r.xmax s

  unfoldable pub is_dead : Row V → ℕ → Bool
  unfolding dead_at
  is_dead r oldest_active_tx = dead_at r.xmax oldest_active_tx

  unfoldable pub mark_deleted : Row V → ℕ → Row V
  mark_deleted r tx_id = record r { xmax = some tx_id }
