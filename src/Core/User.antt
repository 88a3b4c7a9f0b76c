-- ===== src/Core/User.antt =====
-- src/core/user.rs. The SHA-256 of the crate `sha2`, as hexadecimal text, is a parameter.
use postgrust_sql.Prelude.{String, Bool, List, [], ◌==◌, string_eq}
use postgrust_sql.Prelude.Set

pub record User : Type 0 where
  pub username : String
  pub password_hash : String
  pub is_superuser : Bool
  pub can_create_db : Bool
  pub can_create_user : Bool
  pub roles : List String

module _ (sha256_hex : String → String) where
  unfoldable pub hash_password : String → String
  hash_password password = sha256_hex password

  unfoldable pub new : String → String → Bool → User
  unfolding hash_password
  new username password is_superuser = record {
    username = username;
    password_hash = hash_password password;
    is_superuser = is_superuser;
    can_create_db = is_superuser;
    can_create_user = is_superuser;
    roles = [];
  }

  unfoldable pub verify_password : User → String → Bool
  unfolding hash_password
  verify_password u password = u.password_hash == hash_password password

  unfoldable pub set_password : User → String → User
  unfolding hash_password
  set_password u password = record u { password_hash = hash_password password }

unfoldable pub add_role : User → String → User
add_role u role_name = record u { roles = Set.insert u.roles role_name }

unfoldable pub remove_role : User → String → User
remove_role u role_name = record u { roles = Set.remove u.roles role_name }

unfoldable pub has_role : User → String → Bool
has_role u role_name = Set.contains u.roles role_name
