-- ===== src/Core/Server.antt =====
-- src/core/server_instance.rs: users, roles, databases, and the decision who may do what.
pub mod Roles
mod Collect
pub mod Closure
pub mod Permissions
pub mod Access
pub mod Membership
use postgrust_sql.Prelude.{
  ℕ, zero, suc, String, Bool, true, false, not, ◌||◌, Option, none, some, List, [], ◌∷◌, ◌++◌,
  if◌then◌else◌, string_eq, any, length,
}
use postgrust_sql.Prelude.Map
use postgrust_sql.Prelude.Map.{Map, get, contains_key, map_values}
use postgrust_sql.Prelude.Set
use postgrust_sql.Prelude.Set.{contains}
use postgrust_sql.Prelude.Result.{ok, err}
use postgrust_sql.Core.Error.{
  DbResult, user_already_exists, user_not_found, database_already_exists, database_not_found,
  role_already_exists, role_not_found,
}
use postgrust_sql.Core.Privilege.{Privilege}
use postgrust_sql.Core.User
use postgrust_sql.Core.User.{User}
use postgrust_sql.Core.Role
use postgrust_sql.Core.Role.{Role}
use postgrust_sql.Core.DatabaseMetadata
use postgrust_sql.Core.DatabaseMetadata.{DatabaseMetadata}
use postgrust_sql.Core.Database
use postgrust_sql.Core.Database.{Database}

pub record ServerInstance (V : Type 0) : Type 0 where
  pub databases : Map String (Database V)
  pub database_metadata : Map String DatabaseMetadata
  pub users : Map String User
  pub roles : Map String Role

module _ {V : Type 0} where
  unfoldable pub new : ServerInstance V
  new = record { databases = []; database_metadata = []; users = []; roles = [] }

-- Users and their passwords; `sha256_hex` is the hash of src/core/user.rs.
module _ {V : Type 0} (sha256_hex : String → String) where
  unfoldable pub initialize : String → String → String → ServerInstance V
  unfolding new
  initialize superuser_name superuser_password initial_db_name = record new {
    users =
        Map.insert [] superuser_name (User.new sha256_hex superuser_name superuser_password true);
    databases = Map.insert [] initial_db_name (Database.new initial_db_name);
    database_metadata =
        Map.insert [] initial_db_name (DatabaseMetadata.new initial_db_name superuser_name);
  }

  unfoldable pub create_user :
      ServerInstance V → String → String → Bool → DbResult (ServerInstance V)
  create_user s username password is_superuser =
      if contains_key s.users username
      then err (user_already_exists username)
      else ok (record s {
        users = Map.insert s.users username (User.new sha256_hex username password is_superuser);
      })

  unfoldable pub authenticate : ServerInstance V → String → String → Bool
  authenticate s username password = elim (get s.users username) [
    | none ↦ false
    | some user ↦ User.verify_password sha256_hex user password
  ]

module _ {V : Type 0} where
  unfoldable pub drop_user : ServerInstance V → String → DbResult (ServerInstance V)
  drop_user s username =
      if not (contains_key s.users username)
      then err (user_not_found username)
      else ok (record s { users = Map.remove s.users username })

  unfoldable pub create_database : ServerInstance V → String → String → DbResult (ServerInstance V)
  create_database s db_name owner =
      if contains_key s.databases db_name
      then err (database_already_exists db_name)
      else if not (contains_key s.users owner)
      then err (user_not_found owner)
      else ok (record s {
        databases = Map.insert s.databases db_name (Database.new db_name);
        database_metadata =
            Map.insert s.database_metadata db_name (DatabaseMetadata.new db_name owner);
      })

  unfoldable pub drop_database : ServerInstance V → String → DbResult (ServerInstance V)
  drop_database s db_name =
      if not (contains_key s.databases db_name)
      then err (database_not_found db_name)
      else ok (record s {
        databases = Map.remove s.databases db_name;
        database_metadata = Map.remove s.database_metadata db_name;
      })

  unfoldable pub get_database : ServerInstance V → String → Option (Database V)
  get_database s name = get s.databases name

  unfoldable pub get_database_metadata : ServerInstance V → String → Option DatabaseMetadata
  get_database_metadata s name = get s.database_metadata name

  unfoldable pub create_role : ServerInstance V → String → Bool → DbResult (ServerInstance V)
  create_role s role_name is_superuser =
      if contains_key s.roles role_name
      then err (role_already_exists role_name)
      else ok (record s { roles = Map.insert s.roles role_name (Role.new role_name is_superuser) })

  -- the two loops over `values_mut()`, then the removal
  unfoldable pub drop_role : ServerInstance V → String → DbResult (ServerInstance V)
  drop_role s role_name =
      if not (contains_key s.roles role_name)
      then err (role_not_found role_name)
      else ok (record s {
        users = map_values (λ user. User.remove_role user role_name) s.users;
        roles =
            Map.remove
              (map_values
                (λ role. Role.remove_member (Role.remove_parent_role role role_name) role_name)
                s.roles)
              role_name;
      })

  unfoldable pub grant_role_to_user :
      ServerInstance V → String → String → DbResult (ServerInstance V)
  grant_role_to_user s role_name username =
      if not (contains_key s.roles role_name)
      then err (role_not_found role_name)
      else if not (contains_key s.users username)
      then err (user_not_found username)
      else ok (record s {
        users = Map.modify s.users username (λ user. User.add_role user role_name);
        roles = Map.modify s.roles role_name (λ role. Role.add_member role username);
      })

  unfoldable pub revoke_role_from_user :
      ServerInstance V → String → String → DbResult (ServerInstance V)
  revoke_role_from_user s role_name username =
      if not (contains_key s.roles role_name)
      then err (role_not_found role_name)
      else if not (contains_key s.users username)
      then err (user_not_found username)
      else ok (record s {
        users = Map.modify s.users username (λ user. User.remove_role user role_name);
        roles = Map.modify s.roles role_name (λ role. Role.remove_member role username);
      })
