-- ===== src/Core/Server/Permissions.antt =====
-- The permission checks of src/core/server_instance.rs. The loops over the roles stop at the first
-- role that decides; the set of roles has no order, so the result is that some role decides.
use postgrust_sql.Prelude.{
  String, Bool, true, false, ◌||◌, none, some, any, if◌then◌else◌, string_eq,
}
use postgrust_sql.Prelude.Map.{Map, get}
use postgrust_sql.Prelude.Result.{ok, err}
use postgrust_sql.Core.Error.{DbResult, database_not_found}
use postgrust_sql.Core.Privilege.{Privilege}
use postgrust_sql.Core.User.{User}
use postgrust_sql.Core.Role.{Role}
use postgrust_sql.Core.DatabaseMetadata.{has_privilege}
use postgrust_sql.Core.Database
use postgrust_sql.Core.Server.{ServerInstance}
use postgrust_sql.Core.Server.Roles.{get_user_roles}

abbrev pub user_is_superuser : Map String User → String → Bool
user_is_superuser users name = elim (get users name) [
  | none ↦ false
  | some user ↦ user.is_superuser
]

abbrev pub role_is_superuser : Map String Role → String → Bool
role_is_superuser roles name = elim (get roles name) [
  | none ↦ false
  | some role ↦ role.is_superuser
]

module _ {V : Type 0} where
  unfoldable pub check_privilege : ServerInstance V → String → String → Privilege → DbResult Bool
  check_privilege s username db_name p =
      if user_is_superuser s.users username
      then ok true
      else elim (get s.database_metadata db_name) [
        | none ↦ err (database_not_found db_name)
        | some db_meta ↦
            if has_privilege db_meta username p
            then ok true
            else ok (
                any
                  (λ role_name.
                    role_is_superuser s.roles role_name || has_privilege db_meta role_name p)
                  (get_user_roles s username))
      ]

  unfoldable pub check_table_permission :
      ServerInstance V → String → String → String → Privilege → Bool
  check_table_permission s username db_name table_name p =
      if user_is_superuser s.users username
      then true
      else if any (λ role_name. role_is_superuser s.roles role_name) (get_user_roles s username)
      then true
      else elim (get s.databases db_name) [
        | none ↦ false
        | some db ↦
            if Database.check_table_permission db username table_name p
            then true
            else any (λ role_name. Database.check_table_permission db role_name table_name p)
                (get_user_roles s username)
      ]

  unfoldable pub is_table_owner_or_superuser : ServerInstance V → String → String → String → Bool
  is_table_owner_or_superuser s username db_name table_name =
      if user_is_superuser s.users username
      then true
      else if any (λ role_name. role_is_superuser s.roles role_name) (get_user_roles s username)
      then true
      else elim (get s.databases db_name) [
        | none ↦ false
        | some db ↦ Database.is_table_owner db username table_name
      ]
