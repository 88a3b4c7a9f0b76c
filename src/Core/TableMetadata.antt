-- ===== src/Core/TableMetadata.antt =====
-- src/core/table_metadata.rs: the owner of a table and the privileges on it.
use postgrust_sql.Prelude.{String, Bool, [], ◌∷◌, ◌==◌, string_eq}
use postgrust_sql.Core.Privilege.{Privilege, all}
use postgrust_sql.Core.Grants
use postgrust_sql.Core.Grants.{Grants}

pub record TableMetadata : Type 0 where
  pub table_name : String
  pub owner : String
  pub privileges : Grants

unfoldable pub new : String → String → TableMetadata
new table_name owner = record {
  table_name = table_name;
  owner = owner;
  privileges = (owner, all ∷ []) ∷ [];
}

unfoldable pub grant : TableMetadata → String → Privilege → TableMetadata
grant m grantee p = record m { privileges = Grants.grant m.privileges grantee p }

unfoldable pub revoke : TableMetadata → String → Privilege → TableMetadata
revoke m grantee p = record m { privileges = Grants.revoke_or_remove m.privileges grantee p }

unfoldable pub has_privilege : TableMetadata → String → Privilege → Bool
has_privilege m grantee p = Grants.has_privilege m.privileges grantee p

unfoldable pub is_owner : TableMetadata → String → Bool
is_owner m username = m.owner == username
