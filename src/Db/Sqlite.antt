-- ===== src/Db/Sqlite.antt =====
-- The methods that DB/DBSQLite.cpp overrides: `validate` and `banUser`.
use std.Path.{fun_ext}
use wrongthink.Base.{ℕ, String, Option, none, some, ◌≡◌, refl, ap, if◌then◌else◌}
use wrongthink.Base.Int.{ℤ}
use wrongthink.Action.{Action, throw, user_not_found, ◌>>=◌, ◌>>◌}
use wrongthink.Db.Engine.{Engine}
use wrongthink.Db.Tables.{Db}
use wrongthink.Db.Sql.Schema.{
  TableName, users, banned_users, banned_ips, communities, channels, message, control_message,
}
use wrongthink.Db.Sql.Columns.{sqlite_columns, postgres_columns}
use wrongthink.Db.Setup.{create_table, validate}
use wrongthink.Db.Users.{user_id_by_name}
use wrongthink.Db.Bans.{ban_offset, has_ban_entry, extend_ban, insert_ban, ban_id, ban_user}

pub sqlite_validate : Engine → Action Db (Unit {0})
sqlite_validate e = do
  create_table e users (sqlite_columns users)
  create_table e banned_users (sqlite_columns banned_users)
  create_table e banned_ips (sqlite_columns banned_ips)
  create_table e communities (sqlite_columns communities)
  create_table e channels (sqlite_columns channels)
  create_table e message (sqlite_columns message)
  create_table e control_message (sqlite_columns control_message)

sqlite_ban_id : Engine → ℕ → ℤ → Option ℕ → Action Db (Unit {0})
sqlite_ban_id e now days none = throw user_not_found
sqlite_ban_id e now days (some uid) = do
  banned ← has_ban_entry uid
  if banned then extend_ban e now uid days else insert_ban e now uid days

-- `strftime('%s', 'now')` is the clock, `now`.
pub sqlite_ban_user : Engine → ℕ → String → ℤ → Action Db (Unit {0})
unfolding sqlite_ban_id
sqlite_ban_user e now uname days = do
  found ← user_id_by_name uname
  sqlite_ban_id e now (ban_offset days) found

create_table-sqlite :
    (e : Engine) (t : TableName)
    → create_table e t (sqlite_columns t) ≡ create_table e t (postgres_columns t)
unfolding create_table
create_table-sqlite e users = refl
create_table-sqlite e banned_users = refl
create_table-sqlite e banned_ips = refl
create_table-sqlite e communities = refl
create_table-sqlite e channels = refl
create_table-sqlite e message = refl
create_table-sqlite e control_message = refl

pub sqlite_validate-eq-validate : (e : Engine) → sqlite_validate e ≡ validate e
unfolding sqlite_validate validate
sqlite_validate-eq-validate e =
    rw
      (
        create_table-sqlite e users,
        create_table-sqlite e banned_users,
        create_table-sqlite e banned_ips,
        create_table-sqlite e communities,
        create_table-sqlite e channels,
        create_table-sqlite e message,
        create_table-sqlite e control_message,
      )
      refl

sqlite_ban_id-eq-ban_id :
    (e : Engine) (now : ℕ) (days : ℤ) (found : Option ℕ)
    → sqlite_ban_id e now days found ≡ ban_id e now days found
unfolding sqlite_ban_id ban_id
sqlite_ban_id-eq-ban_id e now days none = refl
sqlite_ban_id-eq-ban_id e now days (some uid) = refl

pub sqlite_ban_user-eq-ban_user : (e : Engine) → sqlite_ban_user e ≡ ban_user e
unfolding sqlite_ban_user ban_user
sqlite_ban_user-eq-ban_user e = fun_ext (λ now. fun_ext (λ uname. fun_ext (λ days.
    ap (λ f. user_id_by_name uname >>= f)
      (fun_ext (sqlite_ban_id-eq-ban_id e now (ban_offset days))))))
