-- ===== src/Db/Setup/Cleared.antt =====
-- What `clear`, and `validate` after it, leave (DB/DBPostgres.cpp).
use wrongthink.Base.{
  Bool, true, false, any, ◌≡◌, refl, ◌∙◌, arith, ◌&&◌, if◌then◌else◌, Bool-cases, inl, inr,
}
use wrongthink.Action.{ok}
use wrongthink.Db.Engine.{Engine}
use wrongthink.Db.Tables.{Table, Db}
use wrongthink.Db.Sql.Schema.{
  TableName, users, banned_users, banned_ips, communities, channels, message, control_message,
  exists, same_table,
}
use wrongthink.Db.Setup.{
  referenced, all_tables, fresh_table, no_table, dropped, drop_table, validate, clear,
}
use wrongthink.Db.Setup.Validated.{present, validate-eq-validated}

-- The table, if it was there, without it.
abbrev pub gone : {R : Type 0} → Table R → Table R
gone t = if t.exists then no_table else t

gone_exists : {R : Type 0} (t : Table R) → (gone t).exists ≡ false
gone_exists t = ground arith

abbrev pub without : TableName → Db → Db
without users db = record db { users = gone db.users }
without banned_users db = record db { banned_users = gone db.banned_users }
without banned_ips db = record db { banned_ips = gone db.banned_ips }
without communities db = record db { communities = gone db.communities }
without channels db = record db { channels = gone db.channels }
without message db = record db { message = gone db.message }
without control_message db = record db { control_message = gone db.control_message }

without-missing : (t : TableName) (db : Db) → exists t db ≡ false → without t db ≡ db
unfolding exists
without-missing users db h = rw h
without-missing banned_users db h = rw h
without-missing banned_ips db h = rw h
without-missing communities db h = rw h
without-missing channels db h = rw h
without-missing message db h = rw h
without-missing control_message db h = rw h

without-there : (t : TableName) (db : Db) → exists t db ≡ true → without t db ≡ dropped t db
unfolding exists dropped
without-there users db h = rw h
without-there banned_users db h = rw h
without-there banned_ips db h = rw h
without-there communities db h = rw h
without-there channels db h = rw h
without-there message db h = rw h
without-there control_message db h = rw h

-- Whether another table refers to the table.
abbrev pub in_use : TableName → Db → Bool
in_use t db = any (λ u. exists u db && any (same_table t) (referenced u)) all_tables

drop_table_lem :
    (e : Engine) (t : TableName) (db : Db)
    → in_use t db ≡ false
    → drop_table e t db ≡ (ok tt, without t db)
unfolding drop_table
drop_table_lem e t db h = elim (Bool-cases (exists t db)) [
  | inl there ↦ rw (there, h, without-there t db there) (ground arith)
  | inr missing ↦ rw (missing, without-missing t db missing)
]

-- A database in which every table is gone.
abbrev pub cleared : Db → Db
cleared db = record {
  users = gone db.users;
  banned_users = gone db.banned_users;
  banned_ips = gone db.banned_ips;
  communities = gone db.communities;
  channels = gone db.channels;
  message = gone db.message;
  control_message = gone db.control_message;
}

-- The order of the statements leaves no table in use when it is dropped.
pub clear-eq-cleared : (e : Engine) (db : Db) → clear e db ≡ (ok tt, cleared db)
unfolding clear any exists same_table
clear-eq-cleared e db =
    let m = without message db in
    let c = without control_message m in
    let h = without channels c in
    let o = without communities h in
    let u = without banned_users o in
    let i = without banned_ips u in
    rw
      (
        drop_table_lem e message db (ground arith),
        drop_table_lem e control_message m (ground arith),
        drop_table_lem e channels c
            (ground (arith, gone_exists db.message, gone_exists db.control_message)),
        drop_table_lem e communities h (ground (arith, gone_exists db.channels)),
        drop_table_lem e banned_users o (ground arith),
        drop_table_lem e banned_ips u (ground arith),
        drop_table_lem e users i (
            ground (
              arith,
              gone_exists db.message,
              gone_exists db.control_message,
              gone_exists db.channels,
              gone_exists db.communities,
              gone_exists db.banned_users,
            )),
      )
      refl

-- The seven tables, new and empty.
abbrev pub empty_db : Db
empty_db = record {
  users = fresh_table;
  banned_users = fresh_table;
  banned_ips = fresh_table;
  communities = fresh_table;
  channels = fresh_table;
  message = fresh_table;
  control_message = fresh_table;
}

present-gone : {R : Type 0} (t : Table R) → present (gone t) ≡ fresh_table
present-gone t = elim (Bool-cases t.exists) [
  | inl there ↦ rw there refl
  | inr missing ↦ rw missing refl
]

-- On any database, whether references are enforced or not, `clear` returns, and `validate` after it
-- returns and leaves the seven tables, new and empty.
pub validate-clear :
    (e : Engine) (db : Db)
    → ((clear e db).0 ≡ ok tt) × (validate e (clear e db).1 ≡ (ok tt, empty_db))
validate-clear e db = rw (clear-eq-cleared e db) (
  refl,
  validate-eq-validated e (cleared db)
      ∙ rw
          (
            present-gone db.users,
            present-gone db.banned_users,
            present-gone db.banned_ips,
            present-gone db.communities,
            present-gone db.channels,
            present-gone db.message,
            present-gone db.control_message,
          )
          refl,
)
