-- ===== src/Sql/Dialect.antt =====
-- The dialects of internal/provider/sql/expand.go and drivers.go.
use tales.Base.{Bool, true, false, String, ◌||◌, if◌then◌else◌, str_eq, Result, ok, err}

pub record Dialect : Type 0 where
  pub numbered : Bool
  pub positional : Bool
  pub dollar_quoting : Bool
  pub nested_block_comments : Bool
  pub backtick_ident : Bool
  pub hash_line_comment : Bool
  pub dash_dash_needs_space : Bool
  pub backslash_escapes : Bool

pub data Driver : Type 0 where
  pgx mysql : Driver

-- The errors of the expansion, with the numbers that their messages print.
pub data DriverError : Type 0 where
  unsupported_driver : String → DriverError

unfoldable pub resolve_driver : String → Result DriverError Driver
resolve_driver alias =
    if str_eq alias "postgres" || str_eq alias "pgx"
    then ok pgx
    else if str_eq alias "mysql"
    then ok mysql
    else err (unsupported_driver alias)

abbrev pub postgres_dialect : Dialect
postgres_dialect = record {
  numbered = true;
  positional = false;
  dollar_quoting = true;
  nested_block_comments = true;
  backtick_ident = false;
  hash_line_comment = false;
  dash_dash_needs_space = false;
  backslash_escapes = false;
}

abbrev pub mysql_dialect : Dialect
mysql_dialect = record {
  numbered = false;
  positional = true;
  dollar_quoting = false;
  nested_block_comments = false;
  backtick_ident = true;
  hash_line_comment = true;
  dash_dash_needs_space = true;
  backslash_escapes = true;
}

abbrev pub dialect_of : Driver → Dialect
dialect_of pgx = postgres_dialect
dialect_of mysql = mysql_dialect

unfoldable pub dialect_for : String → Result DriverError Dialect
unfolding resolve_driver
dialect_for alias = elim (resolve_driver alias) [
  | ok driver ↦ ok (dialect_of driver)
  | err e ↦ err e
]
