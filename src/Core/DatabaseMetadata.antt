-- ===== src/Core/DatabaseMetadata.antt =====
-- src/core/database_metadata.rs: the owner of a database and the privileges on it.
use postgrust_sql.Prelude.{String, Bool, [], ◌∷◌}
use postgrust_sql.Core.Privilege.{Privilege, all}
use postgrust_sql.Core.Grants
use postgrust_sql.Core.Grants.{Grants}

pub record DatabaseMetadata : Type 0 where
  pub name : String
  pub owner : String
  pub privileges : Grants

unfoldable pub new : String → String → DatabaseMetadata
new name owner = record { name = name; owner = owner; privileges = (owner, all ∷ []) ∷ [] }

unfoldable pub grant : DatabaseMetadata → String → Privilege → DatabaseMetadata
grant m grantee p = record m { privileges = Grants.grant m.privileges grantee p }

unfoldable pub revoke : DatabaseMetadata → String → Privilege → DatabaseMetadata
revoke m grantee p = record m { privileges = Grants.revoke m.privileges grantee p }

unfoldable pub has_privilege : DatabaseMetadata → String → Privilege → Bool
has_privilege m grantee p = Grants.has_privilege m.privileges grantee p
