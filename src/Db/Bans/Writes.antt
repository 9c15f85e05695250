-- ===== src/Db/Bans/Writes.antt =====
-- What the statements of `banUser` write (DB/DBPostgres.cpp, DB/DBSQLite.cpp), and which of them it
-- runs.
use wrongthink.Base.{
  ℕ, String, true, false, none, some, map, any, any-find?, find?, ◌≡◌, refl, ◌∙◌, arith, ==_refl,
}
use wrongthink.Base.Int.{ℤ, pos}
use wrongthink.Action.{ok, thrown, out_of_range, user_not_found}
use wrongthink.Db.Engine.{Engine}
use wrongthink.Db.Tables.{User, Db, appended}
use wrongthink.Db.Sql.{names_resolve}
use wrongthink.Db.Sql.Schema.{IsReady}
use wrongthink.Db.Sql.Statements.{select_ban_entry, write_ban, execute_ready}
use wrongthink.Db.Users.{named, has_id}
use wrongthink.Db.Users.Accounts.{user_id_by_name_ready}
use wrongthink.Db.Bans.{
  bans_id, extended, has_ban_entry, extend_ban, insert_ban, ban_user, ban_offset,
}

abbrev pub with_extended : ℕ → ℤ → Db → Db
with_extended uid expire db = record db {
  banned_users = record db.banned_users { rows = map (extended uid expire) db.banned_users.rows };
}

abbrev pub with_ban : Engine → ℕ → ℤ → Db → Db
with_ban e uid expire db = record db {
  banned_users =
      appended e (λ b. b.entry_id) (λ id. record { entry_id = id; user_id = uid; expire = expire })
        db.banned_users;
}

module _ (e : Engine) (now : ℕ) (uid : ℕ) (offset : ℤ) (db : Db) (ready : IsReady db) where
  pub has_ban_entry_ready : has_ban_entry uid db ≡ (ok (any (bans_id uid) db.banned_users.rows), db)
  unfolding has_ban_entry names_resolve
  has_ban_entry_ready = execute_ready select_ban_entry _ db ready refl

  pub extend_ban_ready :
      (expire : ℤ)
      → e.int_add (pos now) offset ≡ some expire
      → extend_ban e now uid offset db ≡ (ok tt, with_extended uid expire db)
  unfolding extend_ban names_resolve
  extend_ban_ready expire sum = execute_ready write_ban _ db ready refl ∙ rw sum

  pub insert_ban_ready :
      (expire : ℤ)
      → e.int_add (pos now) offset ≡ some expire
      → any (has_id uid) db.users.rows ≡ true
      → insert_ban e now uid offset db ≡ (ok tt, with_ban e uid expire db)
  unfolding insert_ban names_resolve
  insert_ban_ready expire sum known =
      execute_ready write_ban _ db ready refl ∙ rw (sum, known) (ground arith)

  pub extend_ban_overflow :
      e.int_add (pos now) offset ≡ none → extend_ban e now uid offset db ≡ (thrown out_of_range, db)
  unfolding extend_ban names_resolve
  extend_ban_overflow sum = execute_ready write_ban _ db ready refl ∙ rw sum

  pub insert_ban_overflow :
      e.int_add (pos now) offset ≡ none
      → insert_ban e now uid offset db ≡ (
        thrown out_of_range,
        record db {
          banned_users = record db.banned_users {
            sequence = e.after_failure db.banned_users.sequence;
          };
        },
      )
  unfolding insert_ban names_resolve
  insert_ban_overflow sum = execute_ready write_ban _ db ready refl ∙ rw sum

module _ (e : Engine) (now : ℕ) (uname : String) (days : ℤ) (db : Db) (ready : IsReady db) where
  -- A ban of a name that no account has.
  pub ban_user_unknown :
      find? (named uname) db.users.rows ≡ none
      → ban_user e now uname days db ≡ (thrown user_not_found, db)
  unfolding ban_user
  ban_user_unknown h = rw (user_id_by_name_ready db ready uname, h)

  module _ (u : User) (found : find? (named uname) db.users.rows ≡ some u) where
    -- A ban of an account that has one, and of one that has none.
    pub ban_user_again :
        any (bans_id u.user_id) db.banned_users.rows ≡ true
        → ban_user e now uname days db ≡ extend_ban e now u.user_id (ban_offset days) db
    unfolding ban_user
    ban_user_again banned =
        rw
          (
            user_id_by_name_ready db ready uname,
            found,
            has_ban_entry_ready e now u.user_id (ban_offset days) db ready,
            banned,
          )
          refl

    pub ban_user_first :
        any (bans_id u.user_id) db.banned_users.rows ≡ false
        → ban_user e now uname days db ≡ insert_ban e now u.user_id (ban_offset days) db
    unfolding ban_user
    ban_user_first free =
        rw
          (
            user_id_by_name_ready db ready uname,
            found,
            has_ban_entry_ready e now u.user_id (ban_offset days) db ready,
            free,
          )
          refl

    pub ban_user_extends :
        (expire : ℤ)
        → e.int_add (pos now) (ban_offset days) ≡ some expire
        → any (bans_id u.user_id) db.banned_users.rows ≡ true
        → ban_user e now uname days db ≡ (ok tt, with_extended u.user_id expire db)
    ban_user_extends expire sum banned =
        ban_user_again banned
        ∙ extend_ban_ready e now u.user_id (ban_offset days) db ready expire sum

    pub ban_user_inserts :
        (expire : ℤ)
        → e.int_add (pos now) (ban_offset days) ≡ some expire
        → any (bans_id u.user_id) db.banned_users.rows ≡ false
        → ban_user e now uname days db ≡ (ok tt, with_ban e u.user_id expire db)
    ban_user_inserts expire sum free =
        ban_user_first free
        ∙ insert_ban_ready e now u.user_id (ban_offset days) db ready expire sum
            (any-find? (named uname) (has_id u.user_id) u db.users.rows found (==_refl u.user_id))
