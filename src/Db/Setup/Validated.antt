-- ===== src/Db/Setup/Validated.antt =====
-- What `validate` leaves (DB/DBPostgres.cpp).
use wrongthink.Base.{true, false, all, ◌≡◌, refl, ◌∙◌, arith, if◌then◌else◌, Bool-cases, inl, inr}
use wrongthink.Action.{ok}
use wrongthink.Db.Engine.{Engine}
use wrongthink.Db.Tables.{Table, Db}
use wrongthink.Db.Sql.Schema.{
  TableName, users, banned_users, banned_ips, communities, channels, message, control_message,
  exists, IsReady,
}
use wrongthink.Db.Sql.Columns.{postgres_columns, references_of}
use wrongthink.Db.Setup.{fresh_table, created, create_table, validate}

-- The table as it is, or a new one in its place.
abbrev pub present : {R : Type 0} → Table R → Table R
present t = if t.exists then t else fresh_table

present_exists : {R : Type 0} (t : Table R) → (present t).exists ≡ true
present_exists t = ground arith

-- A database in which each missing table was created, and no other was touched.
abbrev pub validated : Db → Db
validated db = record {
  users = present db.users;
  banned_users = present db.banned_users;
  banned_ips = present db.banned_ips;
  communities = present db.communities;
  channels = present db.channels;
  message = present db.message;
  control_message = present db.control_message;
}

abbrev pub ensured : TableName → Db → Db
ensured users db = record db { users = present db.users }
ensured banned_users db = record db { banned_users = present db.banned_users }
ensured banned_ips db = record db { banned_ips = present db.banned_ips }
ensured communities db = record db { communities = present db.communities }
ensured channels db = record db { channels = present db.channels }
ensured message db = record db { message = present db.message }
ensured control_message db = record db { control_message = present db.control_message }

ensured-there : (t : TableName) (db : Db) → exists t db ≡ true → ensured t db ≡ db
unfolding exists
ensured-there users db h = rw h
ensured-there banned_users db h = rw h
ensured-there banned_ips db h = rw h
ensured-there communities db h = rw h
ensured-there channels db h = rw h
ensured-there message db h = rw h
ensured-there control_message db h = rw h

ensured-missing : (t : TableName) (db : Db) → exists t db ≡ false → ensured t db ≡ created t db
unfolding exists created
ensured-missing users db h = rw h
ensured-missing banned_users db h = rw h
ensured-missing banned_ips db h = rw h
ensured-missing communities db h = rw h
ensured-missing channels db h = rw h
ensured-missing message db h = rw h
ensured-missing control_message db h = rw h

create_table_lem :
    (e : Engine) (t : TableName) (db : Db)
    → all (λ u. exists u db) (references_of (postgres_columns t)) ≡ true
    → create_table e t (postgres_columns t) db ≡ (ok tt, ensured t db)
unfolding create_table
create_table_lem e t db h = elim (Bool-cases (exists t db)) [
  | inl there ↦ rw (there, ensured-there t db there)
  | inr missing ↦ rw (missing, h, ensured-missing t db missing) (ground arith)
]

-- On any database, with any of the tables missing, `validate` returns: each missing table is
-- created, and no table that is there is touched.
pub validate-eq-validated : (e : Engine) (db : Db) → validate e db ≡ (ok tt, validated db)
unfolding validate all exists
validate-eq-validated e db =
    rw
      (
        create_table_lem e users db refl,
        create_table_lem e banned_users (ensured users db)
            (ground (arith, present_exists db.users)),
        create_table_lem e banned_ips (ensured banned_users (ensured users db)) refl,
        create_table_lem e communities
            (ensured banned_ips (ensured banned_users (ensured users db)))
            (ground (arith, present_exists db.users)),
        create_table_lem e channels
            (ensured communities (ensured banned_ips (ensured banned_users (ensured users db))))
            (ground (arith, present_exists db.users, present_exists db.communities)),
        create_table_lem e message
            (ensured channels
              (ensured communities (ensured banned_ips (ensured banned_users (ensured users db)))))
            (ground (arith, present_exists db.users, present_exists db.channels)),
        create_table_lem e control_message
            (ensured message (
              ensured channels (
                ensured communities
                  (ensured banned_ips (ensured banned_users (ensured users db))))))
            (ground (arith, present_exists db.users, present_exists db.channels)),
      )
      refl

-- Then the schema is complete.
pub validated-IsReady : (db : Db) → IsReady (validated db)
validated-IsReady db = record {
  has_users = present_exists db.users;
  has_banned_users = present_exists db.banned_users;
  has_banned_ips = present_exists db.banned_ips;
  has_communities = present_exists db.communities;
  has_channels = present_exists db.channels;
  has_message = present_exists db.message;
  has_control_message = present_exists db.control_message;
}

-- On a complete schema `validate` changes nothing.
pub validate-IsReady : (e : Engine) (db : Db) → IsReady db → validate e db ≡ (ok tt, db)
validate-IsReady e db r =
    validate-eq-validated e db
    ∙ rw
        (
          r.has_users, r.has_banned_users, r.has_banned_ips, r.has_communities, r.has_channels,
          r.has_message, r.has_control_message,
        )
        refl
