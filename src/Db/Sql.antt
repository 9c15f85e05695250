-- ===== src/Db/Sql.antt =====
-- The statements of DB/DBPostgres.cpp, DB/DBSQLite.cpp and WrongthinkServiceImpl.cpp, by the tables
-- and columns that each names. A statement whose names do not resolve throws before it runs.
pub mod Schema
pub mod Columns
pub mod Statements
use wrongthink.Base.{
  ℕ, String, Bool, true, false, ◌&&◌, List, length, all, any, filter, contains, ◌==◌, if◌then◌else◌,
}
use wrongthink.Action.{Action, throw, undefined_table, undefined_column}
use wrongthink.Db.Tables.{Db}
use Schema.{TableName, columns, same_table, exists}

-- A column as a statement writes it: `uname`, or `users.uname`.
pub data ColumnRef : Type 0 where
  bare : String → ColumnRef
  of_table : TableName → String → ColumnRef

pub record Statement : Type 0 where
  pub tables : List TableName
  pub names : List ColumnRef

-- A bare name stands in exactly one of the tables; a qualified one in its table, which is listed.
resolves_in : List TableName → ColumnRef → Bool
resolves_in ts (bare c) = length (filter (λ t. contains c (columns t)) ts) == 1
resolves_in ts (of_table t c) = any (same_table t) ts && contains c (columns t)

unfoldable pub names_resolve : Statement → Bool
unfolding resolves_in columns same_table any all filter
names_resolve s = all (resolves_in s.tables) s.names

unfoldable pub tables_exist : Statement → Db → Bool
tables_exist s db = all (λ t. exists t db) s.tables

-- `sql << text, use(…), into(…)`
pub execute : {A : Type 0} → Statement → Action Db A → Action Db A
execute s body db =
    if tables_exist s db
    then (if names_resolve s then body db else throw undefined_column db)
    else throw undefined_table db
