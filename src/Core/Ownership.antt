-- ===== src/Core/Ownership.antt =====
-- Privileges on tables after GRANT and REVOKE, and the tables of a database with their metadata.
use postgrust_sql.Prelude.{
  String, ◌≡◌, ◌≢◌, true, ◌||◌, ◌&&◌, not, arith, eq_iff, ◌==◌, if◌then◌else◌, string_eq,
}
use postgrust_sql.Prelude.Map.{get, contains_key, get-insert, get-remove}
use postgrust_sql.Prelude.Set.{contains, contains-insert, contains-remove}
use postgrust_sql.Prelude.Result.{ok}
use postgrust_sql.Core.Privilege.{Privilege, all, privilege_eq, privilege_beq_iff}
use postgrust_sql.Core.Grants
use postgrust_sql.Core.Grants.{held, held-grant, held-revoke_or_remove, has_privilege-held}
use postgrust_sql.Core.TableMetadata
use postgrust_sql.Core.TableMetadata.{TableMetadata}
use postgrust_sql.Core.Table.{Table}
use postgrust_sql.Core.Database.{Database, create_table, drop_table, check_table_permission}

module _ (m : TableMetadata) (a b : String) (p q : Privilege) where
  -- A grant adds exactly the privilege, or all of them if it is ALL, for exactly the grantee.
  pub has_privilege-grant :
      TableMetadata.has_privilege (TableMetadata.grant m a p) b q
      ≡ ((a == b && (p == all || p == q)) || TableMetadata.has_privilege m b q)
  unfolding TableMetadata.has_privilege TableMetadata.grant
  has_privilege-grant = ground (
    arith,
    has_privilege-held (Grants.grant m.privileges a p) b q,
    has_privilege-held m.privileges b q,
    held-grant m.privileges a b p,
    contains-insert (held m.privileges a) p q,
    contains-insert (held m.privileges a) p all,
    eq_iff a b,
  )

  -- A revoke takes the one privilege out of the grantee's set: what is left is decided by the rest
  -- of the set, and other grantees keep what they have.
  pub has_privilege-revoke : TableMetadata.has_privilege (TableMetadata.revoke m a p) b q ≡ (
      if a == b
      then (not (p == all) && contains (held m.privileges a) all)
        || (not (p == q) && contains (held m.privileges a) q)
      else TableMetadata.has_privilege m b q)
  unfolding TableMetadata.has_privilege TableMetadata.revoke
  has_privilege-revoke = ground (
    arith,
    has_privilege-held (Grants.revoke_or_remove m.privileges a p) b q,
    has_privilege-held m.privileges b q,
    held-revoke_or_remove m.privileges a b p,
    contains-remove (held m.privileges a) p q,
    contains-remove (held m.privileges a) p all,
    eq_iff a b,
  )

-- A single privilege that is revoked from a grantee who holds ALL stays granted.
pub revoke_leaves_all :
    (m : TableMetadata) (a : String) (p : Privilege)
    → p ≢ all
    → contains (held m.privileges a) all ≡ true
    → TableMetadata.has_privilege (TableMetadata.revoke m a p) a p ≡ true
revoke_leaves_all m a p other holds =
    ground (arith, has_privilege-revoke m a a p p, eq_iff a a, privilege_beq_iff p all)

-- Every table has metadata with the table's owner, and no metadata is left without a table.
pub record IsValid {V : Type 0} (db : Database V) : Type 0 where
  pub described : (t : String) → contains_key db.tables t ≡ contains_key db.table_metadata t

module _ {V : Type 0} (db db' : Database V) where
  -- A CREATE TABLE that succeeds keeps tables and metadata in step.
  pub create_table-IsValid :
      (table : Table V) → IsValid db → create_table db table ≡ ok db' → IsValid db'
  unfolding create_table contains_key
  create_table-IsValid table v h = record {
    described = λ t. ground (
      arith,
      get-insert db.tables table.name t table,
      get-insert db.table_metadata table.name t (TableMetadata.new table.name table.owner),
      v.described t,
    );
  }

  -- A DROP TABLE that succeeds keeps tables and metadata in step.
  pub drop_table-IsValid : (name : String) → IsValid db → drop_table db name ≡ ok db' → IsValid db'
  unfolding drop_table contains_key
  drop_table-IsValid name v h = record {
    described = λ t.
        ground
          (arith, get-remove db.tables name t, get-remove db.table_metadata name t, v.described t);
  }

  -- After a CREATE TABLE that succeeds exactly the owner has permissions on the new table, every
  -- one of them; the permissions on other
  -- tables are as before.
  pub create_table_permissions :
      (table : Table V) (username t : String) (p : Privilege)
      → create_table db table ≡ ok db'
      → check_table_permission db' username t p ≡ (
          if table.name == t
          then table.owner == username
          else check_table_permission db username t p)
  unfolding create_table check_table_permission TableMetadata.new TableMetadata.is_owner
      TableMetadata.has_privilege Grants.has_privilege contains get
  create_table_permissions table username t p h = ground (
    arith,
    get-insert db.table_metadata table.name t (TableMetadata.new table.name table.owner),
    eq_iff table.owner username,
  )
