-- ===== src/Core/Error.antt =====
-- src/core/error.rs: `DatabaseError`; the payloads of foreign errors are their texts.
use postgrust_sql.Prelude.{String}
use postgrust_sql.Prelude.Result.{Result}

pub data DatabaseError : Type 0 where
  table_not_found : String → DatabaseError
  table_already_exists : String → DatabaseError
  column_not_found : String → DatabaseError
  column_count_mismatch : DatabaseError
  type_mismatch : DatabaseError
  database_not_found : String → DatabaseError
  database_already_exists : String → DatabaseError
  user_not_found : String → DatabaseError
  user_already_exists : String → DatabaseError
  role_not_found : String → DatabaseError
  role_already_exists : String → DatabaseError
  authentication_failed : DatabaseError
  permission_denied : String → DatabaseError
  foreign_key_violation : String → DatabaseError
  unique_violation : String → DatabaseError
  io : String → DatabaseError
  serialization : String → DatabaseError
  binary_serialization : String → DatabaseError
  parse_error : String → DatabaseError

abbrev pub DbResult {ℓ} : Type ℓ → Type ℓ
DbResult A = Result DatabaseError A
