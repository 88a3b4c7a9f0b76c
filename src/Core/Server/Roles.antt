-- ===== src/Core/Server/Roles.antt =====
-- `get_user_roles` and `collect_roles_recursive` of src/core/server_instance.rs: the roles of a
-- user with the inherited ones, over a graph of roles that may have cycles.
use postgrust_sql.Prelude.{
  ℕ, zero, suc, String, true, false, Option, none, some, List, [], ◌∷◌, ◌++◌, length, string_eq,
}
use postgrust_sql.Prelude.Map.{Map, get}
use postgrust_sql.Prelude.Set
use postgrust_sql.Prelude.Set.{contains}
use postgrust_sql.Core.User.{User}
use postgrust_sql.Core.Role.{Role}
use postgrust_sql.Core.Server.{ServerInstance}

-- the roles that a role inherits; none if there is no role of that name
abbrev pub parents : Map String Role → String → List String
parents roles name = elim (get roles name) [ none ↦ [] | some role ↦ role.member_of ]

-- one call after the other, as the `for` loops make them; `none` if one has no fuel left
unfoldable pub each_in_turn :
    (String → List String → Option (List String)) → List String → List String → Option (List String)
each_in_turn call [] collected = some collected
each_in_turn call (n ∷ ns) collected = elim (call n collected) [
  | none ↦ none
  | some more ↦ each_in_turn call ns more
]

-- The recursion takes fuel; `none` means that the fuel ran out.
unfoldable pub collect_roles_recursive :
    ℕ → Map String Role → String → List String → Option (List String)
collect_roles_recursive zero roles role_name collected = none
collect_roles_recursive (suc fuel) roles role_name collected =
    let deeper =
      each_in_turn (collect_roles_recursive fuel roles) (parents roles role_name)
        (Set.insert collected role_name) in
    elim (contains collected role_name) [ true ↦ some collected | false ↦ deeper ]

-- every name that some role inherits
unfoldable pub inherited_names : Map String Role → List String
inherited_names [] = []
inherited_names ((n, role) ∷ roles) = role.member_of ++ inherited_names roles

abbrev pub direct_roles : Map String User → String → List String
direct_roles users username = elim (get users username) [ none ↦ [] | some user ↦ user.roles ]

-- enough for each name to be entered once
abbrev pub fuel_for : Map String Role → List String → ℕ
fuel_for roles direct = suc (length (direct ++ inherited_names roles))

unfoldable pub collected_roles : Map String Role → List String → Option (List String)
unfolding each_in_turn
collected_roles roles direct =
    each_in_turn (collect_roles_recursive (fuel_for roles direct) roles) direct []

-- the fuel is enough (`Closure`), so that the default is never taken
unfoldable pub get_user_roles : {V : Type 0} → ServerInstance V → String → List String
unfolding collected_roles
get_user_roles s username = elim (collected_roles s.roles (direct_roles s.users username)) [
  | none ↦ []
  | some roles ↦ roles
]
