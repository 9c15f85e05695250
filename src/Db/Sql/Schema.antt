-- ===== src/Db/Sql/Schema.antt =====
-- The `create table` statements of `DBPostgres::validate` and `SQLiteDB::validate`: names of tables
-- and their columns in order (the same in both).
use wrongthink.Base.{String, Bool, true, ◌==◌, ◌≡◌, ℕ, List, [], ◌∷◌}
use wrongthink.Db.Tables.{Db}

pub data TableName : Type 0 where
  users banned_users banned_ips communities channels message control_message : TableName

unfoldable pub columns : TableName → List String
columns users = "user_id" ∷ "uname" ∷ "token" ∷ "admin" ∷ []
columns banned_users = "entry_id" ∷ "user_id" ∷ "expire" ∷ []
columns banned_ips = "entry_id" ∷ "ip" ∷ "expire" ∷ []
columns communities = "community_id" ∷ "name" ∷ "admin" ∷ "public" ∷ []
columns channels = "channel_id" ∷ "name" ∷ "community" ∷ "admin" ∷ "allow_anon" ∷ []
columns message =
    "msg_id" ∷ "user_id" ∷ "channel" ∷ "thread_id" ∷ "thread_child" ∷ "edited" ∷ "mtext" ∷ "mdate"
    ∷ []
columns control_message = "msg_id" ∷ "user_id" ∷ "channel" ∷ "type" ∷ "mtext" ∷ "mdate" ∷ []

index : TableName → ℕ
index users = 0
index banned_users = 1
index banned_ips = 2
index communities = 3
index channels = 4
index message = 5
index control_message = 6

unfoldable pub same_table : TableName → TableName → Bool
unfolding index
same_table t u = index t == index u

unfoldable pub exists : TableName → Db → Bool
exists users db = db.users.exists
exists banned_users db = db.banned_users.exists
exists banned_ips db = db.banned_ips.exists
exists communities db = db.communities.exists
exists channels db = db.channels.exists
exists message db = db.message.exists
exists control_message db = db.control_message.exists

-- Every table is there, as after `validate`.
pub record IsReady (db : Db) : Type 0 where
  pub has_users : db.users.exists ≡ true
  pub has_banned_users : db.banned_users.exists ≡ true
  pub has_banned_ips : db.banned_ips.exists ≡ true
  pub has_communities : db.communities.exists ≡ true
  pub has_channels : db.channels.exists ≡ true
  pub has_message : db.message.exists ≡ true
  pub has_control_message : db.control_message.exists ≡ true

pub exists_ready : (t : TableName) (db : Db) → IsReady db → exists t db ≡ true
unfolding exists
exists_ready users db r = r.has_users
exists_ready banned_users db r = r.has_banned_users
exists_ready banned_ips db r = r.has_banned_ips
exists_ready communities db r = r.has_communities
exists_ready channels db r = r.has_channels
exists_ready message db r = r.has_message
exists_ready control_message db r = r.has_control_message
