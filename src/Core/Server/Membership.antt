-- ===== src/Core/Server/Membership.antt =====
-- The two sides of a role's membership, and what dropping a role or a user leaves behind.
use postgrust_sql.Prelude.{
  String, ◌≡◌, refl, Bool, true, false, none, some, List, [], arith, eq_iff, string_eq, ◌≢◌, subst,
  Bool-cases, inl, inr,
}
use postgrust_sql.Prelude.Map.{
  Map, get, contains_key, get-insert, get-remove, get-modify, get-map_values, on_some, map_values,
}
use postgrust_sql.Prelude.Set.{contains, contains-insert, contains-remove}
use postgrust_sql.Prelude.Result.{ok}
use postgrust_sql.Core.User
use postgrust_sql.Core.User.{User}
use postgrust_sql.Core.Role
use postgrust_sql.Core.Role.{Role}
use postgrust_sql.Core.Server.{
  ServerInstance, create_user, drop_user, drop_role, grant_role_to_user, revoke_role_from_user,
}
use postgrust_sql.Core.Server.Roles.{parents, direct_roles, get_user_roles}
use postgrust_sql.Core.Server.Closure.{Inherits, granted, inherited, get_user_roles_iff}

-- the users that a role lists
abbrev pub members : Map String Role → String → List String
members roles name = elim (get roles name) [ none ↦ [] | some role ↦ role.members ]

-- `User.roles` and `Role.members` agree for the users and roles that exist.
pub record IsConsistent {V : Type 0} (s : ServerInstance V) : Type 0 where
  pub agree :
      (u r : String)
      → contains_key s.users u ≡ true
      → contains_key s.roles r ≡ true
      → contains (direct_roles s.users u) r ≡ contains (members s.roles r) u

module _ {V : Type 0} (s s' : ServerInstance V) (r u : String) where
  -- A GRANT of a role that succeeds keeps the users' roles and the roles' members in agreement.
  pub grant-IsConsistent : IsConsistent s → grant_role_to_user s r u ≡ ok s' → IsConsistent s'
  unfolding grant_role_to_user contains_key on_some User.add_role Role.add_member
  grant-IsConsistent c h = record {
    agree = λ v q iv iq. ground (
      arith,
      get-modify s.users u v (λ user. User.add_role user r),
      get-modify s.roles r q (λ role. Role.add_member role u),
      c.agree v q,
      contains-insert (direct_roles s.users v) r q,
      contains-insert (members s.roles q) u v,
      eq_iff u v,
      eq_iff r q,
    );
  }

  -- A REVOKE of a role that succeeds keeps the users' roles and the roles' members in agreement.
  pub revoke-IsConsistent : IsConsistent s → revoke_role_from_user s r u ≡ ok s' → IsConsistent s'
  unfolding revoke_role_from_user contains_key on_some User.remove_role Role.remove_member
  revoke-IsConsistent c h = record {
    agree = λ v q iv iq. ground (
      arith,
      get-modify s.users u v (λ user. User.remove_role user r),
      get-modify s.roles r q (λ role. Role.remove_member role u),
      c.agree v q,
      contains-remove (direct_roles s.users v) r q,
      contains-remove (members s.roles q) u v,
      eq_iff u v,
      eq_iff r q,
    );
  }

  -- After a GRANT that succeeds the role is among the user's roles at once.
  pub grant_then_member : grant_role_to_user s r u ≡ ok s' → contains (get_user_roles s' u) r ≡ true
  unfolding grant_role_to_user contains_key on_some User.add_role
  grant_then_member h = (get_user_roles_iff s' u r).1 (
      granted r (
        ground (
          arith,
          get-modify s.users u u (λ user. User.add_role user r),
          contains-insert (direct_roles s.users u) r r,
          eq_iff u u,
          eq_iff r r,
        )))

module _ {V : Type 0} (s s' : ServerInstance V) (r : String) where
  direct_roles-drop_role :
      (v : String) → drop_role s r ≡ ok s' → contains (direct_roles s'.users v) r ≡ false
  unfolding drop_role on_some User.remove_role contains
  direct_roles-drop_role v h = ground (
    arith,
    get-map_values (λ user. User.remove_role user r) s.users v,
    contains-remove (direct_roles s.users v) r r,
    eq_iff r r,
  )

  parents-drop_role : (a : String) → drop_role s r ≡ ok s' → contains (parents s'.roles a) r ≡ false
  unfolding drop_role on_some Role.remove_parent_role Role.remove_member contains
  parents-drop_role a h =
      let strip : Role → Role = λ role. Role.remove_member (Role.remove_parent_role role r) r in
      ground (
        arith,
        get-remove (map_values strip s.roles) r a,
        get-map_values strip s.roles a,
        contains-remove (parents s.roles a) r r,
        eq_iff r r,
      )

  not_inherited :
      (v a : String) → drop_role s r ≡ ok s' → Inherits s'.roles (direct_roles s'.users v) a → a ≢ r
  not_inherited v a h (granted _ i) e =
      cc (direct_roles-drop_role v h, subst (λ n. contains (direct_roles s'.users v) n ≡ true) e i)
  not_inherited v p h (inherited a _ rest i) e =
      cc (parents-drop_role a h, subst (λ n. contains (parents s'.roles a) n ≡ true) e i)

  -- After a DROP ROLE that succeeds no user has the role, by a grant or by inheritance.
  pub dropped_role_is_gone :
      (v : String) → drop_role s r ≡ ok s' → contains (get_user_roles s' v) r ≡ false
  dropped_role_is_gone v h = elim (Bool-cases (contains (get_user_roles s' v) r)) [
    | inl still ↦ absurd (not_inherited v r h ((get_user_roles_iff s' v r).0 still) refl)
    | inr gone ↦ gone
  ]

-- DROP USER leaves the name in the roles that list it: when both calls succeed and a user of that name is created again,
-- the role counts it as a member, and the user does not have the role.
pub dropped_user_stays_member :
    {V : Type 0} (sha256_hex : String → String) (s s₁ s₂ : ServerInstance V) (r u password : String)
    (super : Bool)
    → contains (members s.roles r) u ≡ true
    → drop_user s u ≡ ok s₁
    → create_user sha256_hex s₁ u password super ≡ ok s₂
    → (contains (members s₂.roles r) u ≡ true)
      × (contains (direct_roles s₂.users u) r ≡ false)
      × (contains_key s₂.users u ≡ true)
unfolding drop_user create_user contains_key User.new contains
dropped_user_stays_member sha256_hex s s₁ s₂ r u password super m d c = (
  ground arith,
  ground (arith, get-insert s₁.users u u (User.new sha256_hex u password super), eq_iff u u),
  ground (arith, get-insert s₁.users u u (User.new sha256_hex u password super), eq_iff u u),
)
