-- ===== src/Core/Grants.antt =====
-- The map from names to sets of privileges in src/core/table_metadata.rs and
-- src/core/database_metadata.rs, with the operations on it.
use postgrust_sql.Prelude.{
  String, ◌≡◌, refl, Bool, false, ◌||◌, Option, none, some, List, [], ◌∷◌, arith, ◌==◌, eq_iff,
  if◌then◌else◌, string_eq,
}
use postgrust_sql.Prelude.Map.{Map, get, get-insert, get-remove}
use postgrust_sql.Prelude.Map
use postgrust_sql.Prelude.Set
use postgrust_sql.Prelude.Set.{contains, contains-insert, contains-remove}
use postgrust_sql.Core.Privilege.{Privilege, all, privilege_eq}

abbrev pub Grants : Type 0
Grants = Map String (List Privilege)

-- `privileges.get(grantee)`, the empty set for a missing name
unfoldable pub held : Grants → String → List Privilege
held g name = elim (get g name) [ none ↦ [] | some privs ↦ privs ]

-- `privileges.entry(grantee).or_default().insert(privilege)`
unfoldable pub grant : Grants → String → Privilege → Grants
unfolding held
grant g name p = Map.insert g name (Set.insert (held g name) p)

store_or_remove : Grants → String → List Privilege → Grants
store_or_remove g name [] = Map.remove g name
store_or_remove g name (p ∷ ps) = Map.insert g name (p ∷ ps)

-- `revoke` of a table's metadata: the entry goes with its last privilege
unfoldable pub revoke_or_remove : Grants → String → Privilege → Grants
unfolding store_or_remove
revoke_or_remove g name p = elim (get g name) [
  | none ↦ g
  | some privs ↦ store_or_remove g name (Set.remove privs p)
]

-- `revoke` of a database's metadata: the entry stays
unfoldable pub revoke : Grants → String → Privilege → Grants
revoke g name p = Map.modify g name (λ privs. Set.remove privs p)

unfoldable pub has_privilege : Grants → String → Privilege → Bool
has_privilege g name p = elim (get g name) [
  | none ↦ false
  | some privs ↦ contains privs all || contains privs p
]

held-store_or_remove :
    (g : Grants) (a b : String) (ps : List Privilege)
    → held (store_or_remove g a ps) b ≡ (if a == b then ps else held g b)
unfolding held store_or_remove
held-store_or_remove g a b [] = ground (arith, get-remove g a b)
held-store_or_remove g a b (p ∷ ps) = ground (arith, get-insert g a b (p ∷ ps))

pub held-grant :
    (g : Grants) (a b : String) (p : Privilege)
    → held (grant g a p) b ≡ (if a == b then Set.insert (held g a) p else held g b)
unfolding held grant
held-grant g a b p = ground (arith, get-insert g a b (Set.insert (held g a) p))

pub held-revoke_or_remove :
    (g : Grants) (a b : String) (p : Privilege)
    → held (revoke_or_remove g a p) b ≡ (if a == b then Set.remove (held g a) p else held g b)
unfolding held revoke_or_remove Set.remove
held-revoke_or_remove g a b p = by_entry (get g a) refl
  where
    by_entry :
        (o : Option (List Privilege))
        → get g a ≡ o
        → held (revoke_or_remove g a p) b ≡ (if a == b then Set.remove (held g a) p else held g b)
    by_entry none e = ground (arith, e, eq_iff a b)
    by_entry (some ps) e = ground (arith, e, held-store_or_remove g a b (Set.remove ps p))

pub held-revoke :
    (g : Grants) (a b : String) (p : Privilege)
    → held (revoke g a p) b ≡ (if a == b then Set.remove (held g a) p else held g b)
unfolding held revoke Map.on_some Set.remove
held-revoke g a b p = ground (arith, Map.get-modify g a b (λ privs. Set.remove privs p), eq_iff a b)

pub has_privilege-held :
    (g : Grants) (a : String) (p : Privilege)
    → has_privilege g a p ≡ (contains (held g a) all || contains (held g a) p)
unfolding has_privilege held contains
has_privilege-held g a p = ground arith
