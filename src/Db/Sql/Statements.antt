-- ===== src/Db/Sql/Statements.antt =====
-- Each statement of the server, in the order of the source, and what running one does.
use wrongthink.Base.{true, false, ◌≡◌, refl, List, [], ◌∷◌, all, arith, ◌⊎◌, inl, inr, Bool-cases}
use wrongthink.Action.{Action, Exception, thrown, undefined_column, undefined_table}
use wrongthink.Db.Tables.{Db}
use wrongthink.Db.Sql.Schema.{
  TableName, users, banned_users, banned_ips, communities, channels, message, exists, IsReady,
  exists_ready,
}
use wrongthink.Db.Sql.{Statement, bare, of_table, names_resolve, tables_exist, execute}

-- select * from users where uname = :uname and token = :token
abbrev pub select_valid_user : Statement
select_valid_user = record { tables = users ∷ []; names = bare "uname" ∷ bare "token" ∷ [] }

-- select * from users where uname = :uname and admin = true
abbrev pub select_admin_user : Statement
select_admin_user = record { tables = users ∷ []; names = bare "uname" ∷ bare "admin" ∷ [] }

-- select expire from banned_users inner join users on users.user_id = banned_users.user_id
-- where uname = :uname
abbrev pub select_user_ban : Statement
select_user_ban = record {
  tables = banned_users ∷ users ∷ [];
  names =
      bare "expire"
      ∷ of_table users "user_id"
      ∷ of_table banned_users "user_id"
      ∷ bare "uname"
      ∷ [];
}

-- delete from banned_users where uname = :uname
abbrev pub delete_user_ban : Statement
delete_user_ban = record { tables = banned_users ∷ []; names = bare "uname" ∷ [] }

-- insert into banned_ips (ip,expire) values (:ip,:date)
abbrev pub insert_banned_ip : Statement
insert_banned_ip = record { tables = banned_ips ∷ []; names = bare "ip" ∷ bare "expire" ∷ [] }

-- select expire from banned_ips where ip = :ip
abbrev pub select_ip_ban : Statement
select_ip_ban = record { tables = banned_ips ∷ []; names = bare "expire" ∷ bare "ip" ∷ [] }

-- delete from banned_ips where ip = :ip
abbrev pub delete_ip_ban : Statement
delete_ip_ban = record { tables = banned_ips ∷ []; names = bare "ip" ∷ [] }

-- select user_id from users where uname = :uname
abbrev pub select_user_id : Statement
select_user_id = record { tables = users ∷ []; names = bare "user_id" ∷ bare "uname" ∷ [] }

-- select * from banned_users where user_id = :uid
abbrev pub select_ban_entry : Statement
select_ban_entry = record { tables = banned_users ∷ []; names = bare "user_id" ∷ [] }

-- update banned_users set expire = … + :days where user_id = :uid
-- insert into banned_users (user_id,expire) values(:uid, … + :days)
abbrev pub write_ban : Statement
write_ban = record { tables = banned_users ∷ []; names = bare "expire" ∷ bare "user_id" ∷ [] }

-- select count(*) from users where admin = true
abbrev pub select_admin_count : Statement
select_admin_count = record { tables = users ∷ []; names = bare "admin" ∷ [] }

-- insert into users (uname,token,admin) values(:uname,:token,:admin)
abbrev pub insert_user : Statement
insert_user = record {
  tables = users ∷ [];
  names = bare "uname" ∷ bare "token" ∷ bare "admin" ∷ [];
}

-- insert into channels(name, community, admin, allow_anon) values(…)
abbrev pub insert_channel : Statement
insert_channel = record {
  tables = channels ∷ [];
  names = bare "name" ∷ bare "community" ∷ bare "admin" ∷ bare "allow_anon" ∷ [];
}

-- select channel_id from channels where name = :name
-- select name from channels where channel_id = :id
abbrev pub select_channel : Statement
select_channel = record { tables = channels ∷ []; names = bare "channel_id" ∷ bare "name" ∷ [] }

-- insert into communities (name, admin, public) values(…)
abbrev pub insert_community : Statement
insert_community = record {
  tables = communities ∷ [];
  names = bare "name" ∷ bare "admin" ∷ bare "public" ∷ [];
}

-- select community_id from communities where name = :name
abbrev pub select_community_id : Statement
select_community_id = record {
  tables = communities ∷ [];
  names = bare "community_id" ∷ bare "name" ∷ [];
}

-- select * from communities inner join users on communities.admin=users.user_id
abbrev pub select_communities : Statement
select_communities = record {
  tables = communities ∷ users ∷ [];
  names = of_table communities "admin" ∷ of_table users "user_id" ∷ [];
}

-- select * from channels inner join users on channels.admin=users.user_id
-- where community=:community order by channels.channel_id
abbrev pub select_channels : Statement
select_channels = record {
  tables = channels ∷ users ∷ [];
  names =
      of_table channels "admin"
      ∷ of_table users "user_id"
      ∷ bare "community"
      ∷ of_table channels "channel_id"
      ∷ [];
}

-- select * from message inner join users on message.user_id = users.user_id
-- where message.channel = :channelid order by message.msg_id
abbrev pub select_messages : Statement
select_messages = record {
  tables = message ∷ users ∷ [];
  names =
      of_table message "user_id"
      ∷ of_table users "user_id"
      ∷ of_table message "channel"
      ∷ of_table message "msg_id"
      ∷ [];
}

-- insert into message(user_id,channel,thread_id,thread_child, mtext) values(…)
abbrev pub insert_message : Statement
insert_message = record {
  tables = message ∷ [];
  names =
      bare "user_id" ∷ bare "channel" ∷ bare "thread_id" ∷ bare "thread_child" ∷ bare "mtext" ∷ [];
}

all-exists_ready : (ts : List TableName) (db : Db) → IsReady db → all (λ t. exists t db) ts ≡ true
unfolding all
all-exists_ready [] db r = refl
all-exists_ready (t ∷ ts) db r = ground (arith, exists_ready t db r, all-exists_ready ts db r)

module _ {A : Type 0} (s : Statement) (body : Action Db A) (db : Db) (r : IsReady db) where
  -- On a complete schema a statement with the right names runs.
  pub execute_ready : names_resolve s ≡ true → execute s body db ≡ body db
  unfolding execute tables_exist
  execute_ready h = rw (all-exists_ready s.tables db r, h)

  -- One with a wrong name throws, and changes nothing.
  pub execute_misnamed : names_resolve s ≡ false → execute s body db ≡ (thrown undefined_column, db)
  unfolding execute tables_exist
  execute_misnamed h = rw (all-exists_ready s.tables db r, h)

-- On any schema, a statement runs, or it throws and changes nothing.
pub execute-cases :
    {A : Type 0} (s : Statement) (body : Action Db A) (db : Db)
    → (execute s body db ≡ body db) ⊎ ((x : Exception) × (execute s body db ≡ (thrown x, db)))
unfolding execute
execute-cases s body db = elim (Bool-cases (tables_exist s db)) [
  | inr absent ↦ inr (undefined_table, rw absent)
  | inl there ↦ elim (Bool-cases (names_resolve s)) [
    | inl named ↦ inl (rw (there, named))
    | inr misnamed ↦ inr (undefined_column, rw (there, misnamed))
  ]
]
