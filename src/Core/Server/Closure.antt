-- ===== src/Core/Server/Closure.antt =====
-- The collection of roles ends, and collects exactly the roles that inheritance reaches.
use postgrust_sql.Prelude.{
  ℕ, zero, suc, String, ◌≡◌, ◌↔◌, inl, inr, refl, true, Option, none, some, List, [], ◌∷◌, ◌++◌,
  arith, ◌==◌, eq_iff, string_eq, Bool-cases, subst,
}
use postgrust_sql.Prelude.Map.{Map, get}
use postgrust_sql.Prelude.Set
use postgrust_sql.Prelude.Set.{contains, contains-insert, contains-append}
use postgrust_sql.Core.Role.{Role}
use postgrust_sql.Core.Server.{ServerInstance}
use postgrust_sql.Core.Server.Roles.{
  parents, each_in_turn, collect_roles_recursive, inherited_names, direct_roles, fuel_for,
  collected_roles, get_user_roles,
}
use postgrust_sql.Core.Server.Collect.{
  In, missing-le-length, Collects, each_in_turn-Collects, collect-Total,
}

-- The roles that inheritance reaches from the direct ones.
pub data Inherits (roles : Map String Role) (direct : List String) : String → Type 0 where
  granted : (a : String) → contains direct a ≡ true → Inherits roles direct a
  inherited :
      (a p : String)
      → Inherits roles direct a
      → contains (parents roles a) p ≡ true
      → Inherits roles direct p

parents-inherited_names :
    (roles : Map String Role) (a p : String) → In (parents roles a) p → In (inherited_names roles) p
unfolding get inherited_names contains
parents-inherited_names [] a p i = ground arith
parents-inherited_names ((n, role) ∷ roles) a p i = ground (
  arith,
  contains-append role.member_of (inherited_names roles) p,
  parents-inherited_names roles a p,
)

-- what holds of the names that are added, and of what is collected, holds of the result
module _ (roles : Map String Role) (P : String → Type 0)
    (up : (a p : String) → P a → In (parents roles a) p → P p) where
  abbrev AllIn : List String → Type 0
  AllIn c = (a : String) → In c a → P a

  each_in_turn-AllIn :
      (call : String → List String → Option (List String))
      → ((n : String) (c d : List String) → call n c ≡ some d → P n → AllIn c → AllIn d)
      → (ns c d : List String) → each_in_turn call ns c ≡ some d
      → AllIn ns
      → AllIn c
      → AllIn d
  unfolding each_in_turn contains
  each_in_turn-AllIn call keep [] c d e pn pc = subst AllIn (ground arith) pc
  each_in_turn-AllIn call keep (n ∷ ns) c d e pn pc =
      after_first (call n c) refl e (λ more. each_in_turn-AllIn call keep ns more d)
    where
      after_first :
          (o : Option (List String))
          → call n c ≡ o
          → (elim o [ none ↦ none | some more ↦ each_in_turn call ns more ]) ≡ some d
          → ((more : List String)
              → each_in_turn call ns more ≡ some d
              → AllIn ns
              → AllIn more
              → AllIn d)
          → AllIn d
      after_first none h e' later = ground arith
      after_first (some more) h e' later =
          later more e' (λ a i. pn a (ground arith))
            (keep n c more h (pn n (ground (arith, eq_iff n n))) pc)

  collect-AllIn :
      (fuel : ℕ) (n : String) (c d : List String)
      → collect_roles_recursive fuel roles n c ≡ some d
      → P n
      → AllIn c
      → AllIn d
  unfolding collect_roles_recursive contains
  collect-AllIn zero n c d e pn pc = ground arith
  collect-AllIn (suc fuel) n c d e pn pc = elim (Bool-cases (contains c n)) [
    | inl known ↦ subst AllIn (ground arith) pc
    | inr new ↦
        each_in_turn-AllIn (collect_roles_recursive fuel roles) (collect-AllIn fuel)
          (parents roles n) (Set.insert c n) d (ground arith) (λ a i. up n a pn i)
          (λ a i. elim (Bool-cases (n == a)) [
            | inl same ↦ subst P ((eq_iff n a).0 same) pn
            | inr other ↦ pc a (ground (arith, contains-insert c n a))
          ])
  ]

collected :
    (roles : Map String Role) (direct : List String)
    → (d : List String) × (collected_roles roles direct ≡ some d) × Collects roles direct [] d
unfolding collected_roles
collected roles direct =
    let us = direct ++ inherited_names roles in
    each_in_turn-Collects roles us (collect_roles_recursive (fuel_for roles direct) roles)
      (fuel_for roles direct) direct []
      (collect-Total roles us
        (λ a p i. ground (
          arith,
          contains-append direct (inherited_names roles) p,
          parents-inherited_names roles a p i,
        ))
        (fuel_for roles direct))
      (λ n i. ground (arith, contains-append direct (inherited_names roles) n))
      (omega (arith, missing-le-length us []))

module _ (roles : Map String Role) (direct d : List String) (all : Collects roles direct [] d) where
  Inherits-In : (a : String) → Inherits roles direct a → In d a
  unfolding contains
  Inherits-In a (granted _ i) = all.enters a i
  Inherits-In p (inherited a _ i up) = all.closes a refl (Inherits-In a i) p up

get_user_roles-eq :
    {V : Type 0} (s : ServerInstance V) (username : String) (d : List String)
    → collected_roles s.roles (direct_roles s.users username) ≡ some d
    → get_user_roles s username ≡ d
unfolding get_user_roles
get_user_roles-eq s username d e = ground arith

-- The recursion ends, and the roles of a user are exactly those that inheritance reaches from the
-- roles granted to the user, whatever cycles the graph has.
pub get_user_roles_iff :
    {V : Type 0} (s : ServerInstance V) (username a : String)
    → (contains (get_user_roles s username) a ≡ true)
      ↔ Inherits s.roles (direct_roles s.users username) a
unfolding contains collected_roles
get_user_roles_iff s username a =
    let direct = direct_roles s.users username in
    let (d, e, all) = collected s.roles direct in
    rw (get_user_roles-eq s username d e) (
      each_in_turn-AllIn s.roles (λ n. Inherits s.roles direct n) (λ n p i up. inherited n p i up)
          (collect_roles_recursive (fuel_for s.roles direct) s.roles)
          (collect-AllIn s.roles (λ n. Inherits s.roles direct n) (λ n p i up. inherited n p i up)
            (fuel_for s.roles direct))
          direct [] d e (λ n i. granted n i) (λ n i. ground arith) a,
      Inherits-In s.roles direct d all a,
    )
