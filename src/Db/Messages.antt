-- ===== src/Db/Messages.antt =====
-- Messages: the insert of `SendWrongthinkMessage` and `SendWrongthinkMessageWeb`
-- (WrongthinkServiceImpl.cpp) and `getChannelMessages` of DB/DBPostgres.cpp.
pub mod Posting
use wrongthink.Base.{
  ℕ, String, Bool, false, Option, none, some, List, ◌&&◌, any, filter, ◌==◌, not, if◌then◌else◌,
}
use wrongthink.Action.{Action, Exception, pure, foreign_key_violation}
use wrongthink.Db.Engine.{Engine}
use wrongthink.Db.Tables.{Message, Db, insert}
use wrongthink.Db.Cells.{Row, message_cells, inner_join}
use wrongthink.Db.Order.{order_by}
use wrongthink.Db.Sql.{execute}
use wrongthink.Db.Sql.Schema.{TableName}
use wrongthink.Db.Sql.Statements.{insert_message, select_messages}
use wrongthink.Db.Users.{has_id}
use wrongthink.Db.Channels.{has_channel_id}

-- The columns that the statement writes.
pub record Post : Type 0 where
  pub user_id : ℕ
  pub channel : ℕ
  pub thread_id : ℕ
  pub thread_child : Bool
  pub text : String

-- user_id references users; channel references channels
unfoldable pub message_violation : Engine → Post → Db → Option Exception
message_violation e p db =
    if e.enforces_references
      && not
          (any (has_id p.user_id) db.users.rows && any (has_channel_id p.channel) db.channels.rows)
    then some foreign_key_violation
    else none

-- `edited` and `mdate` take their defaults: false, and the clock.
abbrev pub new_message : ℕ → Post → ℕ → Message
new_message now p id = record {
  msg_id = id;
  user_id = p.user_id;
  channel = p.channel;
  thread_id = p.thread_id;
  thread_child = p.thread_child;
  edited = false;
  mtext = p.text;
  mdate = now;
}

pub insert_message_row : Engine → ℕ → Post → Action Db (Unit {0})
insert_message_row e now p = execute insert_message (λ db.
    let (r, t) =
      insert e (λ m. m.msg_id) (new_message now p) (message_violation e p db) db.message in
    (r, record db { message = t }))

abbrev pub in_channel : ℕ → Message → Bool
in_channel channel_id m = channel_id == m.channel

pub get_channel_messages : ℕ → Action Db (List Row)
get_channel_messages channel_id = execute select_messages (λ db.
    pure
      (inner_join TableName.message (λ m. m.user_id) message_cells
        (order_by (λ m. m.msg_id) (filter (in_channel channel_id) db.message.rows)) db.users.rows)
      db)
