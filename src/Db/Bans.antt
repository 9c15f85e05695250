-- ===== src/Db/Bans.antt =====
-- Bans: `banUser`, `isUserBanned` and `isIPBanned` of DB/DBPostgres.cpp, and `banUser` of
-- DB/DBSQLite.cpp, which differs in the text of its clock expression only. The clock is an argument.
pub mod Offset
pub mod Rows
pub mod Sound
pub mod Writes
pub mod Banning
pub mod Effects
pub mod Ips
pub mod Lookups
pub mod Users
pub mod Threads
pub mod Framing
pub mod Frames
use wrongthink.Base.{
  ℕ, String, Bool, true, false, Option, none, some, List, map, ◌&&◌, any, find?, filter, ◌==◌,
  str_eq, not, if◌then◌else◌,
}
use wrongthink.Base.Int.{ℤ, pos, ltb_ℤ, mul32}
use wrongthink.Action.{
  Action, Exception, pure, throw, ◌>>=◌, ◌>>◌, value_too_long, unique_violation,
  foreign_key_violation, out_of_range, bad_conversion, user_not_found,
}
use wrongthink.Db.Engine.{Engine}
use wrongthink.Db.Tables.{User, BannedUser, BannedIp, Db, insert}
use wrongthink.Db.Sql.{execute}
use wrongthink.Db.Sql.Statements.{
  select_ban_entry, write_ban, select_user_ban, delete_user_ban, insert_banned_ip, select_ip_ban,
  delete_ip_ban,
}
use wrongthink.Db.Users.{named, has_id, user_id_by_name}

-- `days = days * 24 * 60 * 60 * 1000` in a 32-bit `int`
pub ban_offset : ℤ → ℤ
ban_offset days = mul32 (mul32 (mul32 (mul32 days 24) 60) 60) 1000

abbrev pub bans_id : ℕ → BannedUser → Bool
bans_id uid b = uid == b.user_id

-- Whether `select * from banned_users where user_id = :uid` finds a row.
pub has_ban_entry : ℕ → Action Db Bool
has_ban_entry uid =
    execute select_ban_entry (λ db. pure (any (bans_id uid) db.banned_users.rows) db)

-- The row that the `update` statement leaves in place of another.
abbrev pub extended : ℕ → ℤ → BannedUser → BannedUser
extended uid expire b = if bans_id uid b then record b { expire = expire } else b

pub extend_ban : Engine → ℕ → ℕ → ℤ → Action Db (Unit {0})
extend_ban e now uid offset = execute write_ban (λ db. elim (e.int_add (pos now) offset) [
  | none ↦ throw out_of_range db
  | some expire ↦ pure tt (record db {
    banned_users = record db.banned_users { rows = map (extended uid expire) db.banned_users.rows };
  })
])

abbrev pub unknown_user : Engine → ℕ → List User → Option Exception
unknown_user e uid rows =
    if e.enforces_references && not (any (has_id uid) rows)
    then some foreign_key_violation
    else none

pub insert_ban : Engine → ℕ → ℕ → ℤ → Action Db (Unit {0})
insert_ban e now uid offset = execute write_ban (λ db. elim (e.int_add (pos now) offset) [
  | none ↦ throw out_of_range (record db {
    banned_users = record db.banned_users { sequence = e.after_failure db.banned_users.sequence };
  })
  | some expire ↦
      let (r, t) =
        insert e (λ b. b.entry_id) (λ id. record { entry_id = id; user_id = uid; expire = expire })
          (unknown_user e uid db.users.rows) db.banned_users in
      (r, record db { banned_users = t })
])

unfoldable pub ban_id : Engine → ℕ → ℤ → Option ℕ → Action Db (Unit {0})
ban_id e now offset none = throw user_not_found
ban_id e now offset (some uid) = do
  banned ← has_ban_entry uid
  if banned then extend_ban e now uid offset else insert_ban e now uid offset

unfoldable pub ban_user : Engine → ℕ → String → ℤ → Action Db (Unit {0})
unfolding ban_id
ban_user e now uname days = do found ← user_id_by_name uname; ban_id e now (ban_offset days) found

-- A selected `int` exchanged into a `std::tm`.
abbrev pub fetch_tm : Engine → Option ℤ → Action Db (Option ℤ)
fetch_tm e none = pure none
fetch_tm e (some expire) = elim (e.load_tm expire) [
  | none ↦ throw bad_conversion
  | some te ↦ pure (some te)
]

abbrev pub has_ip : String → BannedIp → Bool
has_ip ip b = str_eq ip b.ip

abbrev pub ip_expire : Option BannedIp → Option ℤ
ip_expire none = none
ip_expire (some b) = some b.expire

abbrev pub ip_expiry : String → Db → Option ℤ
ip_expiry ip db = ip_expire (find? (has_ip ip) db.banned_ips.rows)

pub select_ip : Engine → String → Action Db (Option ℤ)
select_ip e ip = execute select_ip_ban (λ db. fetch_tm e (ip_expiry ip db) db)

pub delete_ip : String → Action Db (Unit {0})
delete_ip ip = execute delete_ip_ban (λ db. pure tt (record db {
  banned_ips = record db.banned_ips { rows = filter (λ b. not (has_ip ip b)) db.banned_ips.rows };
}))

ip_verdict : ℕ → String → Option ℤ → Action Db Bool
ip_verdict now ip none = pure false
ip_verdict now ip (some te) =
    if ltb_ℤ te (pos now) then (do delete_ip ip; pure false) else pure true

pub is_ip_banned : Engine → ℕ → String → Action Db Bool
unfolding ip_verdict
is_ip_banned e now ip = do found ← select_ip e ip; ip_verdict now ip found

-- A ban of an account with the name: a row of `banned_users inner join users`.
abbrev pub bans_name : String → Db → BannedUser → Bool
bans_name uname db b = any (λ u. has_id b.user_id u && named uname u) db.users.rows

abbrev pub user_expire : Option BannedUser → Option ℤ
user_expire none = none
user_expire (some b) = some b.expire

abbrev pub user_expiry : String → Db → Option ℤ
user_expiry uname db = user_expire (find? (bans_name uname db) db.banned_users.rows)

pub select_user : Engine → String → Action Db (Option ℤ)
select_user e uname = execute select_user_ban (λ db. fetch_tm e (user_expiry uname db) db)

-- What the statement would delete, had its names resolved.
pub delete_user : String → Action Db (Unit {0})
delete_user uname = execute delete_user_ban (λ db. pure tt (record db {
  banned_users = record db.banned_users {
    rows = filter (λ b. not (bans_name uname db b)) db.banned_users.rows;
  };
}))

-- `varchar(50) unique not null`
unfoldable pub ip_violation : Engine → String → List BannedIp → Option Exception
ip_violation e ip rows =
    if not (e.fits 50 ip)
    then some value_too_long
    else if any (has_ip ip) rows
    then some unique_violation
    else none

pub insert_ip : Engine → String → ℤ → Action Db (Unit {0})
insert_ip e ip date = execute insert_banned_ip (λ db. elim (e.store_tm date) [
  | none ↦ throw bad_conversion (record db {
    banned_ips = record db.banned_ips { sequence = e.after_failure db.banned_ips.sequence };
  })
  | some stored ↦
      let (r, t) =
        insert e (λ b. b.entry_id) (λ id. record { entry_id = id; ip = ip; expire = stored })
          (ip_violation e ip db.banned_ips.rows) db.banned_ips in
      (r, record db { banned_ips = t })
])

user_verdict : Engine → ℕ → ℕ → String → String → Option ℤ → Action Db Bool
user_verdict e now later uname ip none = pure false
user_verdict e now later uname ip (some te) =
    if ltb_ℤ te (pos now) then (do delete_user uname; pure false) else (do
      banned ← is_ip_banned e later ip
      if banned then pure true else (do insert_ip e ip te; pure true))

-- `now` is the clock of `isUserBanned`, `later` that of the `isIPBanned` that it calls.
pub is_user_banned : Engine → ℕ → ℕ → String → String → Action Db Bool
unfolding user_verdict
is_user_banned e now later uname ip = do
  found ← select_user e uname
  user_verdict e now later uname ip found
