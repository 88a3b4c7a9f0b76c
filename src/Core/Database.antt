-- ===== src/Core/Database.antt =====
-- src/core/database.rs: the tables of a database with their owners and privileges.
use Prim.Native.String.{◌++◌}
use postgrust_sql.Prelude.{
  String, Bool, false, ◌||◌, Option, none, some, List, [], if◌then◌else◌, string_eq,
}
use postgrust_sql.Prelude.Map
use postgrust_sql.Prelude.Map.{Map, get, contains_key}
use postgrust_sql.Prelude.Result.{ok, err}
use postgrust_sql.Core.Error.{DbResult, parse_error, table_already_exists, table_not_found}
use postgrust_sql.Core.Privilege.{Privilege}
use postgrust_sql.Core.Table.{Table}
use postgrust_sql.Core.TableMetadata
use postgrust_sql.Core.TableMetadata.{TableMetadata, has_privilege, is_owner}
use postgrust_sql.Index.{Index}

pub record Database (V : Type 0) : Type 0 where
  pub name : String
  pub tables : Map String (Table V)
  pub enums : Map String (List String)
  pub indexes : Map String Index
  pub views : Map String String
  pub table_metadata : Map String TableMetadata

module _ {V : Type 0} where
  unfoldable pub new : String → Database V
  new name = record {
    name = name;
    tables = [];
    enums = [];
    indexes = [];
    views = [];
    table_metadata = [];
  }

  unfoldable pub create_enum : Database V → String → List String → DbResult (Database V)
  create_enum db name values =
      if contains_key db.enums name
      then err (parse_error ("Enum '" ++ (name ++ "' already exists")))
      else ok (record db { enums = Map.insert db.enums name values })

  unfoldable pub get_enum : Database V → String → Option (List String)
  get_enum db name = get db.enums name

  unfoldable pub create_table : Database V → Table V → DbResult (Database V)
  create_table db table =
      if contains_key db.tables table.name
      then err (table_already_exists table.name)
      else ok (record db {
        table_metadata =
            Map.insert db.table_metadata table.name (TableMetadata.new table.name table.owner);
        tables = Map.insert db.tables table.name table;
      })

  unfoldable pub get_table : Database V → String → Option (Table V)
  get_table db name = get db.tables name

  -- `get_table_mut`, with the change that the caller makes
  unfoldable pub modify_table : Database V → String → (Table V → Table V) → Database V
  modify_table db name f = record db { tables = Map.modify db.tables name f }

  unfoldable pub drop_table : Database V → String → DbResult (Database V)
  drop_table db name =
      if contains_key db.tables name
      then ok (record db {
        tables = Map.remove db.tables name;
        table_metadata = Map.remove db.table_metadata name;
      })
      else err (table_not_found name)

  unfoldable pub check_table_permission : Database V → String → String → Privilege → Bool
  check_table_permission db username table_name p = elim (get db.table_metadata table_name) [
    | none ↦ false
    | some metadata ↦ has_privilege metadata username p || is_owner metadata username
  ]

  unfoldable pub is_table_owner : Database V → String → String → Bool
  is_table_owner db username table_name = elim (get db.table_metadata table_name) [
    | none ↦ false
    | some metadata ↦ is_owner metadata username
  ]
