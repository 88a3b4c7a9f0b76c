-- ===== src/Core/Server/Access.antt =====
-- Who passes the permission checks, in terms of inheritance.
use postgrust_sql.Prelude.{
  String, ◌≡◌, ◌↔◌, ◌⊎◌, inl, inr, refl, Bool, true, false, ◌||◌, Option, none, some, List, [], ◌∷◌,
  any, arith, eq_iff, Bool-cases, if◌then◌else◌, string_eq,
}
use postgrust_sql.Prelude.Map.{get}
use postgrust_sql.Prelude.Set.{contains}
use postgrust_sql.Prelude.Result.{ok}
use postgrust_sql.Core.Privilege.{Privilege}
use postgrust_sql.Core.DatabaseMetadata.{DatabaseMetadata, has_privilege}
use postgrust_sql.Core.Database
use postgrust_sql.Core.Database.{Database}
use postgrust_sql.Core.Server.{ServerInstance}
use postgrust_sql.Core.Server.Roles.{direct_roles, get_user_roles}
use postgrust_sql.Core.Server.Closure.{Inherits, get_user_roles_iff}
use postgrust_sql.Core.Server.Permissions.{
  user_is_superuser, role_is_superuser, check_privilege, check_table_permission,
}

any_found :
    (f : String → Bool) (xs : List String)
    → any f xs ≡ true
    → (a : String) × (contains xs a ≡ true) × (f a ≡ true)
unfolding contains
any_found f [] h = ground arith
any_found f (x ∷ xs) h = elim (Bool-cases (f x)) [
  | inl here ↦ (x, ground (arith, eq_iff x x), here)
  | inr other ↦ let (a, i, fa) = any_found f xs (ground arith) in (a, ground arith, fa)
]

any_intro :
    (f : String → Bool) (xs : List String) (a : String)
    → contains xs a ≡ true
    → f a ≡ true
    → any f xs ≡ true
unfolding contains
any_intro f [] a i h = ground arith
any_intro f (x ∷ xs) a i h = ground (arith, eq_iff x a, any_intro f xs a)

module _ {V : Type 0} (s : ServerInstance V) (username : String) where
  -- the role is one of the user's, by a grant or by inheritance
  abbrev pub HasRole : String → Type 0
  HasRole a = Inherits s.roles (direct_roles s.users username) a

  any-roles :
      (f : String → Bool)
      → (any f (get_user_roles s username) ≡ true) ↔ ((a : String) × HasRole a × (f a ≡ true))
  any-roles f = (
    λ h.
        let (a, i, fa) = any_found f (get_user_roles s username) h in
        (a, (get_user_roles_iff s username a).0 i, fa),
    λ w.
        any_intro f (get_user_roles s username) w.0 ((get_user_roles_iff s username w.0).1 w.1) w.2,
  )

  -- A user who is no superuser has a privilege on a database that has metadata exactly if the user,
  -- or a role that inheritance reaches, was granted it, or such a role is a superuser role.
  pub check_privilege_iff :
      (db_name : String) (meta : DatabaseMetadata) (p : Privilege)
      → user_is_superuser s.users username ≡ false
      → get s.database_metadata db_name ≡ some meta
      → (check_privilege s username db_name p ≡ ok true) ↔ (
          (has_privilege meta username p ≡ true)
          ⊎ ((a : String) × HasRole a
              × ((role_is_superuser s.roles a || has_privilege meta a p) ≡ true)))
  unfolding check_privilege
  check_privilege_iff db_name meta p plain known =
      let decides : String → Bool = λ a. role_is_superuser s.roles a || has_privilege meta a p in
      (
        λ h. elim (Bool-cases (has_privilege meta username p)) [
          | inl own ↦ inl own
          | inr none_own ↦ inr ((any-roles decides).0 (ground arith))
        ],
        λ w. elim w [
          | inl own ↦ ground arith
          | inr role ↦ ground (arith, (any-roles decides).1 role)
        ],
      )

  -- A table permission holds exactly for a superuser, a member of a superuser role, and one who
  -- passes the table's own check, or has a role that passes it, in a database that exists.
  pub check_table_permission_iff :
      (db_name table_name : String) (p : Privilege)
      → (check_table_permission s username db_name table_name p ≡ true) ↔ (
          (user_is_superuser s.users username ≡ true)
          ⊎ (((a : String) × HasRole a × (role_is_superuser s.roles a ≡ true))
              ⊎ ((db : Database V) × (get s.databases db_name ≡ some db)
                  × ((Database.check_table_permission db username table_name p ≡ true)
                      ⊎ ((a : String) × HasRole a
                          × (Database.check_table_permission db a table_name p ≡ true))))))
  unfolding check_table_permission
  check_table_permission_iff db_name table_name p = (
    λ h. elim (Bool-cases (user_is_superuser s.users username)) [
      | inl super ↦ inl super
      | inr plain ↦
          elim (Bool-cases (any (role_is_superuser s.roles) (get_user_roles s username))) [
            | inl above ↦ inr (inl ((any-roles (role_is_superuser s.roles)).0 above))
            | inr below ↦ inr (inr (in_database (get s.databases db_name) refl (ground arith)))
          ]
    ],
    λ w. elim w [
      | inl super ↦ ground arith
      | inr (inl role) ↦ ground (arith, (any-roles (role_is_superuser s.roles)).1 role)
      | inr (inr (db, e, inl own)) ↦ ground arith
      | inr (inr (db, e, inr role)) ↦
          ground
            (arith, (any-roles (λ a. Database.check_table_permission db a table_name p)).1 role)
    ],
  )
    where
      in_database :
          (o : Option (Database V))
          → get s.databases db_name ≡ o
          → (elim o [
            | none ↦ false
            | some db ↦
                if Database.check_table_permission db username table_name p
                then true
                else any
                    (λ a. Database.check_table_permission db a table_name p)
                    (get_user_roles s username)
          ])
            ≡ true
          → (db : Database V) × (get s.databases db_name ≡ some db)
            × ((Database.check_table_permission db username table_name p ≡ true)
                ⊎ ((a : String) × HasRole a
                    × (Database.check_table_permission db a table_name p ≡ true)))
      in_database none e h = ground arith
      in_database (some db) e h = (
        db,
        e,
        elim (Bool-cases (Database.check_table_permission db username table_name p)) [
          | inl own ↦ inl own
          | inr other ↦ inr (
              (any-roles (λ a. Database.check_table_permission db a table_name p)).0 (ground arith))
        ],
      )
