-- ===== src/Db/Setup.antt =====
-- `clear` and `validate` of DB/DBPostgres.cpp.
pub mod Validated
pub mod Cleared
use wrongthink.Base.{ℕ, Bool, true, false, List, [], ◌∷◌, all, any, ◌&&◌, not, if◌then◌else◌}
use wrongthink.Action.{Action, pure, throw, undefined_table, dependent_objects, ◌>>=◌, ◌>>◌}
use wrongthink.Db.Engine.{Engine}
use wrongthink.Db.Tables.{Table, Db}
use wrongthink.Db.Sql.Columns.{Column, postgres_columns, references_of}
use wrongthink.Db.Sql.Schema.{
  TableName, users, banned_users, banned_ips, communities, channels, message, control_message,
  exists, same_table,
}

-- The tables in the `references` clauses of a `create table` statement (the same in both backends).
abbrev pub referenced : TableName → List TableName
referenced t = references_of (postgres_columns t)

abbrev pub all_tables : List TableName
all_tables =
    users ∷ banned_users ∷ banned_ips ∷ communities ∷ channels ∷ message ∷ control_message ∷ []

abbrev pub fresh_table : {R : Type 0} → Table R
fresh_table = record { exists = true; rows = []; sequence = 1 }

abbrev pub no_table : {R : Type 0} → Table R
no_table = record { exists = false; rows = []; sequence = 1 }

pub created : TableName → Db → Db
created users db = record db { users = fresh_table }
created banned_users db = record db { banned_users = fresh_table }
created banned_ips db = record db { banned_ips = fresh_table }
created communities db = record db { communities = fresh_table }
created channels db = record db { channels = fresh_table }
created message db = record db { message = fresh_table }
created control_message db = record db { control_message = fresh_table }

pub dropped : TableName → Db → Db
dropped users db = record db { users = no_table }
dropped banned_users db = record db { banned_users = no_table }
dropped banned_ips db = record db { banned_ips = no_table }
dropped communities db = record db { communities = no_table }
dropped channels db = record db { channels = no_table }
dropped message db = record db { message = no_table }
dropped control_message db = record db { control_message = no_table }

-- `create table if not exists`: a table can refer to tables only that are there.
unfoldable pub create_table : Engine → TableName → List Column → Action Db (Unit {0})
unfolding created
create_table e t cols db =
    if exists t db
    then pure tt db
    else if e.enforces_references && not (all (λ u. exists u db) (references_of cols))
    then throw undefined_table db
    else pure tt (created t db)

-- `drop table if exists`: a table cannot be dropped while another refers to it.
pub drop_table : Engine → TableName → Action Db (Unit {0})
unfolding dropped
drop_table e t db =
    if not (exists t db)
    then pure tt db
    else if e.enforces_references
        && any (λ u. exists u db && any (same_table t) (referenced u)) all_tables
    then throw dependent_objects db
    else pure tt (dropped t db)

unfoldable pub validate : Engine → Action Db (Unit {0})
unfolding create_table
validate e = do
  create_table e users (postgres_columns users)
  create_table e banned_users (postgres_columns banned_users)
  create_table e banned_ips (postgres_columns banned_ips)
  create_table e communities (postgres_columns communities)
  create_table e channels (postgres_columns channels)
  create_table e message (postgres_columns message)
  create_table e control_message (postgres_columns control_message)

pub clear : Engine → Action Db (Unit {0})
unfolding drop_table
clear e = do
  drop_table e message
  drop_table e control_message
  drop_table e channels
  drop_table e communities
  drop_table e banned_users
  drop_table e banned_ips
  drop_table e users
