-- ===== src/Examples/Servers.antt =====
-- A server with a user, two roles that inherit each other, and a database, for
-- src/core/server_instance.rs and src/core/database.rs.
use postgrust_sql.Prelude.{
  ℕ, String, ◌≡◌, ◌↔◌, ◌⊎◌, refl, true, false, ◌||◌, some, List, [], ◌∷◌, arith, string_eq,
}
use postgrust_sql.Prelude.Map
use postgrust_sql.Prelude.Map.{Map, get, contains_key}
use postgrust_sql.Prelude.Set
use postgrust_sql.Prelude.Set.{contains}
use postgrust_sql.Prelude.Result.{ok}
use postgrust_sql.Core.Privilege.{all, select, connect, privilege_eq}
use postgrust_sql.Core.User
use postgrust_sql.Core.User.{User}
use postgrust_sql.Core.Role
use postgrust_sql.Core.Role.{Role}
use postgrust_sql.Core.Table.{Table}
use postgrust_sql.Core.TableMetadata.{TableMetadata}
use postgrust_sql.Core.DatabaseMetadata
use postgrust_sql.Core.DatabaseMetadata.{DatabaseMetadata}
use postgrust_sql.Core.Database
use postgrust_sql.Core.Database.{Database, create_table, drop_table}
use postgrust_sql.Core.Ownership
use postgrust_sql.Core.Ownership.{
  has_privilege-grant, has_privilege-revoke, revoke_leaves_all, create_table-IsValid,
  drop_table-IsValid, create_table_permissions,
}
use postgrust_sql.Core.Server.{ServerInstance, grant_role_to_user}
use postgrust_sql.Core.Server.Roles.{direct_roles, get_user_roles}
use postgrust_sql.Core.Server.Closure.{Inherits, get_user_roles_iff}
use postgrust_sql.Core.Server.Permissions.{
  check_privilege, check_table_permission, role_is_superuser, user_is_superuser,
}
use postgrust_sql.Core.Server.Access.{HasRole, check_privilege_iff, check_table_permission_iff}
use postgrust_sql.Core.Server.Membership.{members, IsConsistent, grant-IsConsistent}

abbrev alice : List String → User
alice roles = record {
  username = "alice";
  password_hash = "";
  is_superuser = false;
  can_create_db = false;
  can_create_user = false;
  roles = roles;
}

abbrev group : String → List String → List String → Role
group name members parents = record {
  name = name;
  is_superuser = false;
  can_create_db = false;
  can_create_role = false;
  members = members;
  member_of = parents;
}

abbrev app_metadata : DatabaseMetadata
app_metadata = record { name = "app"; owner = "bob"; privileges = ("staff", connect ∷ []) ∷ [] }

abbrev empty_app : Database ℕ
empty_app = record {
  name = "app";
  tables = [];
  enums = [];
  indexes = [];
  views = [];
  table_metadata = [];
}

-- the roles dev and staff inherit each other
abbrev server : List String → List String → ServerInstance ℕ
server alice_roles dev_members = record {
  databases = ("app", empty_app) ∷ [];
  database_metadata = ("app", app_metadata) ∷ [];
  users = ("alice", alice alice_roles) ∷ [];
  roles =
      ("dev", group "dev" dev_members ("staff" ∷ []))
      ∷ ("staff", group "staff" [] ("dev" ∷ []))
      ∷ [];
}

abbrev outside : ServerInstance ℕ
outside = server [] []

abbrev in_dev : ServerInstance ℕ
in_dev = server ("dev" ∷ []) ("alice" ∷ [])

outside-IsConsistent : IsConsistent outside
unfolding contains_key get contains
outside-IsConsistent = record { agree = λ u r iu ir. ground arith }

in_dev-IsConsistent : IsConsistent in_dev
unfolding contains_key get contains
in_dev-IsConsistent = record { agree = λ u r iu ir. ground arith }

grant-IsConsistent_example : IsConsistent in_dev
unfolding grant_role_to_user contains_key get Map.modify Map.on_some User.add_role Role.add_member
    Set.insert
grant-IsConsistent_example =
    grant-IsConsistent outside in_dev "dev" "alice" outside-IsConsistent refl

-- in_dev after DROP ROLE dev
abbrev without_dev : ServerInstance ℕ
without_dev = record outside { roles = ("staff", group "staff" [] []) ∷ [] }

abbrev without_alice : ServerInstance ℕ
without_alice = record in_dev { users = [] }

abbrev with_new_alice : ServerInstance ℕ
with_new_alice = record in_dev { users = ("alice", alice []) ∷ [] }

get_user_roles_iff_example :
    (contains (get_user_roles in_dev "alice") "staff" ≡ true)
    ↔ Inherits in_dev.roles (direct_roles in_dev.users "alice") "staff"
get_user_roles_iff_example = get_user_roles_iff in_dev "alice" "staff"

-- the cycle of roles is walked once
get_user_roles_test : contains (get_user_roles in_dev "alice") "staff" ≡ true
unfolding get contains
get_user_roles_test =
    (get_user_roles_iff in_dev "alice" "staff").1
      (Inherits.inherited "dev" "staff" (Inherits.granted "dev" refl) refl)

check_privilege_iff_example : (check_privilege in_dev "alice" "app" connect ≡ ok true) ↔ (
    (DatabaseMetadata.has_privilege app_metadata "alice" connect ≡ true)
    ⊎ ((a : String) × HasRole in_dev "alice" a
        × ((role_is_superuser in_dev.roles a
              || DatabaseMetadata.has_privilege app_metadata a connect)
            ≡ true)))
unfolding get
check_privilege_iff_example =
    check_privilege_iff in_dev "alice" "app" app_metadata connect refl refl

check_table_permission_iff_example :
    (check_table_permission in_dev "alice" "app" "t" select ≡ true) ↔ (
      (user_is_superuser in_dev.users "alice" ≡ true)
      ⊎ (((a : String) × HasRole in_dev "alice" a × (role_is_superuser in_dev.roles a ≡ true))
          ⊎ ((db : Database ℕ) × (get in_dev.databases "app" ≡ some db)
              × ((Database.check_table_permission db "alice" "t" select ≡ true)
                  ⊎ ((a : String) × HasRole in_dev "alice" a
                      × (Database.check_table_permission db a "t" select ≡ true))))))
check_table_permission_iff_example = check_table_permission_iff in_dev "alice" "app" "t" select

-- bob owns the table and holds ALL on it, alice may read
abbrev table_metadata : TableMetadata
table_metadata = record {
  table_name = "t";
  owner = "bob";
  privileges = ("bob", all ∷ []) ∷ ("alice", select ∷ []) ∷ [];
}

abbrev new_table : Table ℕ
new_table = record { name = "t"; columns = []; rows = []; sequences = []; owner = "bob" }

abbrev with_table : Database ℕ
with_table = record empty_app {
  tables = ("t", new_table) ∷ [];
  table_metadata =
      ("t", record { table_name = "t"; owner = "bob"; privileges = ("bob", all ∷ []) ∷ [] }) ∷ [];
}

empty_app-IsValid : Ownership.IsValid empty_app
unfolding contains_key get
empty_app-IsValid = record { described = λ t. refl }

with_table-IsValid : Ownership.IsValid with_table
unfolding contains_key get
with_table-IsValid = record { described = λ t. ground arith }
