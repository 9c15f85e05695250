-- ===== src/Db/Sql/Columns.antt =====
-- The columns that the `create table` statements declare, in order: `validate` of DB/DBPostgres.cpp
-- and of DB/DBSQLite.cpp.
use wrongthink.Base.{ℕ, String, Option, none, some, List, [], ◌∷◌, ◌++◌, map, ◌≡◌, refl}
use wrongthink.Db.Sql.Schema.{
  TableName, users, banned_users, banned_ips, communities, channels, message, control_message,
  columns,
}

pub data Backend : Type 0 where
  on_postgres on_sqlite : Backend

pub data SqlType : Type 0 where
  t_serial t_integer t_int t_date t_boolean t_text : SqlType
  t_varchar : ℕ → SqlType

-- The value that a column takes where an insert leaves it out; `now_plus` is the clock, and days.
pub data Default : Type 0 where
  is_false is_true : Default
  now_plus : ℕ → Default

pub data Constraint : Type 0 where
  primary_key unique not_null : Constraint
  references : TableName → Constraint
  default : Default → Constraint

pub record Column : Type 0 where
  pub name : String
  pub type : SqlType
  pub constraints : List Constraint

abbrev pub column : String → SqlType → List Constraint → Column
column name type constraints = record { name = name; type = type; constraints = constraints }

-- DBPostgres::validate
abbrev pub postgres_columns : TableName → List Column
postgres_columns users =
    column "user_id" t_serial (primary_key ∷ [])
    ∷ column "uname" (t_varchar 50) (unique ∷ not_null ∷ [])
    ∷ column "token" (t_varchar 50) (not_null ∷ [])
    ∷ column "admin" t_boolean (default is_false ∷ [])
    ∷ []
postgres_columns banned_users =
    column "entry_id" t_serial (primary_key ∷ [])
    ∷ column "user_id" t_int (references users ∷ [])
    ∷ column "expire" t_int (not_null ∷ [])
    ∷ []
postgres_columns banned_ips =
    column "entry_id" t_serial (primary_key ∷ [])
    ∷ column "ip" (t_varchar 50) (unique ∷ not_null ∷ [])
    ∷ column "expire" t_int (not_null ∷ [])
    ∷ []
postgres_columns communities =
    column "community_id" t_serial (primary_key ∷ [])
    ∷ column "name" (t_varchar 100) (unique ∷ not_null ∷ [])
    ∷ column "admin" t_int (references users ∷ [])
    ∷ column "public" t_boolean (default is_true ∷ [])
    ∷ []
postgres_columns channels =
    column "channel_id" t_serial (primary_key ∷ [])
    ∷ column "name" (t_varchar 100) (unique ∷ not_null ∷ [])
    ∷ column "community" t_int (references communities ∷ [])
    ∷ column "admin" t_int (references users ∷ [])
    ∷ column "allow_anon" t_boolean (default is_true ∷ [])
    ∷ []
postgres_columns message =
    column "msg_id" t_serial (primary_key ∷ [])
    ∷ column "user_id" t_int (references users ∷ [])
    ∷ column "channel" t_int (references channels ∷ [])
    ∷ column "thread_id" t_int []
    ∷ column "thread_child" t_boolean (not_null ∷ default is_false ∷ [])
    ∷ column "edited" t_boolean (default is_false ∷ [])
    ∷ column "mtext" t_text (not_null ∷ [])
    ∷ column "mdate" t_int (not_null ∷ default (now_plus 0) ∷ [])
    ∷ []
postgres_columns control_message =
    column "msg_id" t_serial (primary_key ∷ [])
    ∷ column "user_id" t_int (references users ∷ [])
    ∷ column "channel" t_int (references channels ∷ [])
    ∷ column "type" (t_varchar 50) []
    ∷ column "mtext" t_text (not_null ∷ [])
    ∷ column "mdate" t_int (not_null ∷ default (now_plus 0) ∷ [])
    ∷ []

-- SQLiteDB::validate
abbrev pub sqlite_columns : TableName → List Column
sqlite_columns users =
    column "user_id" t_integer (primary_key ∷ [])
    ∷ column "uname" (t_varchar 50) (unique ∷ not_null ∷ [])
    ∷ column "token" (t_varchar 50) (not_null ∷ [])
    ∷ column "admin" t_boolean (default is_false ∷ [])
    ∷ []
sqlite_columns banned_users =
    column "entry_id" t_integer (primary_key ∷ [])
    ∷ column "user_id" t_int (references users ∷ [])
    ∷ column "expire" t_date (not_null ∷ default (now_plus 3) ∷ [])
    ∷ []
sqlite_columns banned_ips =
    column "entry_id" t_integer (primary_key ∷ [])
    ∷ column "ip" (t_varchar 50) (unique ∷ not_null ∷ [])
    ∷ column "expire" t_date (not_null ∷ [])
    ∷ []
sqlite_columns communities =
    column "community_id" t_integer (primary_key ∷ [])
    ∷ column "name" (t_varchar 100) (unique ∷ not_null ∷ [])
    ∷ column "admin" t_int (references users ∷ [])
    ∷ column "public" t_boolean (default is_true ∷ [])
    ∷ []
sqlite_columns channels =
    column "channel_id" t_integer (primary_key ∷ [])
    ∷ column "name" (t_varchar 100) (unique ∷ not_null ∷ [])
    ∷ column "community" t_int (references communities ∷ [])
    ∷ column "admin" t_int (references users ∷ [])
    ∷ column "allow_anon" t_boolean (default is_true ∷ [])
    ∷ []
sqlite_columns message =
    column "msg_id" t_integer (primary_key ∷ [])
    ∷ column "user_id" t_int (references users ∷ [])
    ∷ column "channel" t_int (references channels ∷ [])
    ∷ column "thread_id" t_int []
    ∷ column "thread_child" t_boolean (not_null ∷ default is_false ∷ [])
    ∷ column "edited" t_boolean (default is_false ∷ [])
    ∷ column "mtext" t_text (not_null ∷ [])
    ∷ column "mdate" t_int (not_null ∷ default (now_plus 0) ∷ [])
    ∷ []
sqlite_columns control_message =
    column "msg_id" t_integer (primary_key ∷ [])
    ∷ column "user_id" t_int (references users ∷ [])
    ∷ column "channel" t_int (references channels ∷ [])
    ∷ column "type" (t_varchar 50) []
    ∷ column "mtext" t_text (not_null ∷ [])
    ∷ column "mdate" t_int (not_null ∷ default (now_plus 0) ∷ [])
    ∷ []

abbrev pub declared_columns : Backend → TableName → List Column
declared_columns on_postgres = postgres_columns
declared_columns on_sqlite = sqlite_columns

-- The tables in the `references` constraints, in order.
abbrev pub of_constraints : List Constraint → List TableName
of_constraints [] = []
of_constraints (references t ∷ cs) = t ∷ of_constraints cs
of_constraints (_ ∷ cs) = of_constraints cs

abbrev pub references_of : List Column → List TableName
references_of [] = []
references_of (c ∷ cs) = of_constraints c.constraints ++ references_of cs

-- What a column takes: its name, the length of its texts, and its constraints but for the default.
abbrev pub limit : SqlType → Option ℕ
limit (t_varchar n) = some n
limit _ = none

abbrev pub without_default : List Constraint → List Constraint
without_default [] = []
without_default (default d ∷ cs) = without_default cs
without_default (c ∷ cs) = c ∷ without_default cs

abbrev pub shape : Column → String × Option ℕ × List Constraint
shape c = (c.name, limit c.type, without_default c.constraints)

pub shape-sqlite_columns :
    (t : TableName) → map shape (sqlite_columns t) ≡ map shape (postgres_columns t)
shape-sqlite_columns users = refl
shape-sqlite_columns banned_users = refl
shape-sqlite_columns banned_ips = refl
shape-sqlite_columns communities = refl
shape-sqlite_columns channels = refl
shape-sqlite_columns message = refl
shape-sqlite_columns control_message = refl

-- Both backends declare the columns that the statements name.
pub names-columns :
    (b : Backend) (t : TableName) → map (λ c. c.name) (declared_columns b t) ≡ columns t
unfolding columns
names-columns on_postgres users = refl
names-columns on_postgres banned_users = refl
names-columns on_postgres banned_ips = refl
names-columns on_postgres communities = refl
names-columns on_postgres channels = refl
names-columns on_postgres message = refl
names-columns on_postgres control_message = refl
names-columns on_sqlite users = refl
names-columns on_sqlite banned_users = refl
names-columns on_sqlite banned_ips = refl
names-columns on_sqlite communities = refl
names-columns on_sqlite channels = refl
names-columns on_sqlite message = refl
names-columns on_sqlite control_message = refl
