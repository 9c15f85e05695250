-- ===== src/Db/Backends.antt =====
-- DB/DBInterface.h as a record of operations, with the two classes that implement it: DB/DBPostgres.h,
-- and DB/DBSQLite.h, which inherits from it and overrides two methods. A method that reads a clock,
-- and one that leaves a variable or an order to the engine, takes it as an argument.
use wrongthink.Base.{ℕ, String, Bool, List, map, ◌≡◌, refl}
use wrongthink.Base.Int.{ℤ}
use wrongthink.Action.{Action}
use wrongthink.Db.Engine.{Engine}
use wrongthink.Db.Tables.{Db}
use wrongthink.Db.Sql.Schema.{TableName}
use wrongthink.Db.Sql.Columns.{shape, sqlite_columns, postgres_columns, shape-sqlite_columns}
use wrongthink.Db.Cells.{Row}
use wrongthink.Db.Setup.{validate, clear}
use wrongthink.Db.Users.{is_user_valid, is_user_admin, is_user_moderator, create_user}
use wrongthink.Db.Bans.{is_user_banned, is_ip_banned, ban_user}
use wrongthink.Db.Channels.{
  NameRow, create_channel, create_community, get_community_rowset, get_community_channels_rowset,
  get_channel_row,
}
use wrongthink.Db.Messages.{get_channel_messages}
use wrongthink.Db.Sqlite.{
  sqlite_validate, sqlite_ban_user, sqlite_validate-eq-validate, sqlite_ban_user-eq-ban_user,
}

pub record DbInterface : Type 0 where
  pub validate : Action Db (Unit {0})
  pub clear : Action Db (Unit {0})
  pub is_user_valid : String → String → Action Db Bool
  pub is_user_admin : String → Action Db Bool
  pub is_user_moderator : String → ℕ → Action Db Bool
  pub is_user_banned : ℕ → ℕ → String → String → Action Db Bool
  pub is_ip_banned : ℕ → String → Action Db Bool
  pub ban_user : ℕ → String → ℤ → Action Db (Unit {0})
  pub create_user : String → String → Bool → Action Db (ℕ × Bool)
  pub create_channel : String → ℕ → ℕ → Bool → Action Db ℕ
  pub create_community : ℕ → String → ℕ → Bool → Action Db ℕ
  pub get_community_rowset : (List Row → List Row) → Action Db (List Row)
  pub get_community_channels_rowset : ℕ → Action Db (List Row)
  pub get_channel_messages : ℕ → Action Db (List Row)
  pub get_channel_row : ℕ → Action Db NameRow

abbrev pub postgres_db : Engine → DbInterface
postgres_db e = record {
  validate = validate e;
  clear = clear e;
  is_user_valid = is_user_valid;
  is_user_admin = is_user_admin;
  is_user_moderator = is_user_moderator;
  is_user_banned = is_user_banned e;
  is_ip_banned = is_ip_banned e;
  ban_user = ban_user e;
  create_user = create_user e;
  create_channel = create_channel e;
  create_community = create_community e;
  get_community_rowset = get_community_rowset;
  get_community_channels_rowset = get_community_channels_rowset;
  get_channel_messages = get_channel_messages;
  get_channel_row = get_channel_row e;
}

abbrev pub sqlite_db : Engine → DbInterface
sqlite_db e = record (postgres_db e) { validate = sqlite_validate e; ban_user = sqlite_ban_user e }

-- On any engine, the same for both: the SQLite class, with its own `validate` and `banUser`, does to
-- the tables and answers just what the PostgreSQL class does, in each of the fifteen operations of
-- the interface. And each of its `create table` statements declares the columns that the PostgreSQL
-- class does, by name, in order, with the lengths of their texts, and with the same `primary key`,
-- `unique`, `not null` and `references`; types and defaults are left out.
pub sqlite_db-eq-postgres_db :
    (e : Engine)
    → (sqlite_db e ≡ postgres_db e)
      × ((t : TableName) → map shape (sqlite_columns t) ≡ map shape (postgres_columns t))
sqlite_db-eq-postgres_db e =
    (rw (sqlite_validate-eq-validate e, sqlite_ban_user-eq-ban_user e) refl, shape-sqlite_columns)
