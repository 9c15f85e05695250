-- ===== src/Db/Users.antt =====
-- Accounts: `isUserValid`, `isUserAdmin`, `isUserModerator` and `createUser` of DB/DBPostgres.cpp.
pub mod Accounts
pub mod Login
pub mod Threads
use wrongthink.Base.{
  ℕ, String, Bool, true, Option, none, some, List, ◌&&◌, any, find?, filter, length, ◌==◌, str_eq,
  not, ◌||◌, if◌then◌else◌, get_or,
}
use wrongthink.Action.{
  Action, Exception, pure, throw, ◌>>=◌, ◌>>◌, syntax_error, value_too_long, unique_violation,
}
use wrongthink.Db.Engine.{Engine}
use wrongthink.Db.Tables.{User, Db, insert}
use wrongthink.Db.Sql.{execute}
use wrongthink.Db.Sql.Statements.{
  select_valid_user, select_admin_user, select_user_id, select_admin_count, insert_user,
}

abbrev pub named : String → User → Bool
named uname u = str_eq uname u.uname

abbrev pub has_id : ℕ → User → Bool
has_id uid u = uid == u.user_id

-- The account that `isUserValid` looks for.
abbrev pub matches : String → String → User → Bool
matches uname token u = named uname u && str_eq token u.token

pub is_user_valid : String → String → Action Db Bool
is_user_valid uname token =
    execute select_valid_user (λ db. pure (any (matches uname token) db.users.rows) db)

pub is_user_admin : String → Action Db Bool
is_user_admin uname =
    execute select_admin_user (λ db. pure (any (λ u. named uname u && u.admin) db.users.rows) db)

-- The two texts of the statement join to `… = users.user_idwhere channels.channel_id …`, which is no
-- SQL, so that the engine refuses it whatever tables there are.
abbrev pub is_user_moderator : String → ℕ → Action Db Bool
is_user_moderator uname channel_id = throw syntax_error

-- `select user_id from users where uname = :uname`, `into(uid)`, and `got_data()`
pub user_id_by_name : String → Action Db (Option ℕ)
user_id_by_name uname = execute select_user_id (λ db.
    pure (elim (find? (named uname) db.users.rows) [ none ↦ none | some u ↦ some u.user_id ]) db)

pub count_admins : Action Db ℕ
count_admins =
    execute select_admin_count (λ db. pure (length (filter (λ u. u.admin) db.users.rows)) db)

-- The constraints of table users: two `varchar(50)` columns, and `unique` names.
unfoldable pub user_violation : Engine → String → String → List User → Option Exception
user_violation e uname token rows =
    if not (e.fits 50 uname && e.fits 50 token)
    then some value_too_long
    else if any (named uname) rows
    then some unique_violation
    else none

pub insert_user_row : Engine → String → String → Bool → Action Db (Unit {0})
unfolding user_violation
insert_user_row e uname token admin = execute insert_user (λ db.
    let (r, t) =
      insert e (λ u. u.user_id)
        (λ id. record { user_id = id; uname = uname; token = token; admin = admin })
        (user_violation e uname token db.users.rows) db.users in
    (r, record db { users = t }))

-- `int& admin` is passed in and out. `uid` is 0 where the last select finds no row.
unfoldable pub create_user : Engine → String → String → Bool → Action Db (ℕ × Bool)
create_user e uname token admin = do
  adminct ← count_admins
  let admin' = if adminct == 0 then true else admin
  insert_user_row e uname token admin'
  found ← user_id_by_name uname
  pure (get_or found 0, admin')
