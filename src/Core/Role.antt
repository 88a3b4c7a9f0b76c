-- ===== src/Core/Role.antt =====
-- src/core/role.rs: a group role, its members and the roles that it inherits.
use postgrust_sql.Prelude.{String, Bool, List, [], string_eq}
use postgrust_sql.Prelude.Set

pub record Role : Type 0 where
  pub name : String
  pub is_superuser : Bool
  pub can_create_db : Bool
  pub can_create_role : Bool
  pub members : List String
  pub member_of : List String

unfoldable pub new : String → Bool → Role
new name is_superuser = record {
  name = name;
  is_superuser = is_superuser;
  can_create_db = is_superuser;
  can_create_role = is_superuser;
  members = [];
  member_of = [];
}

unfoldable pub add_member : Role → String → Role
add_member r username = record r { members = Set.insert r.members username }

unfoldable pub remove_member : Role → String → Role
remove_member r username = record r { members = Set.remove r.members username }

unfoldable pub has_member : Role → String → Bool
has_member r username = Set.contains r.members username

unfoldable pub add_parent_role : Role → String → Role
add_parent_role r role_name = record r { member_of = Set.insert r.member_of role_name }

unfoldable pub remove_parent_role : Role → String → Role
remove_parent_role r role_name = record r { member_of = Set.remove r.member_of role_name }
