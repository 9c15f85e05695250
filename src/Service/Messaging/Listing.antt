-- ===== src/Service/Messaging/Listing.antt =====
-- What `GetWrongthinkMessagesImpl` writes, and that it gives back what was sent
-- (WrongthinkServiceImpl.cpp).
use wrongthink.Base.{ℕ, filter, ◌≡◌, arith}
use wrongthink.Action.{ok}
use wrongthink.Proto.{WrongthinkMessage, no_message, ok_status, GetWrongthinkMessagesRequest}
use wrongthink.Db.Tables.{User, Message}
use wrongthink.Db.Cells.{join_row, message_cells, position}
use wrongthink.Db.Order.{Rising, Rising-filter, order_by-Rising}
use wrongthink.Db.Sql.Schema.{TableName, columns, IsReady}
use wrongthink.Db.Messages.{in_channel}
use wrongthink.Db.Messages.Posting.{get_channel_messages_ready}
use wrongthink.Service.{Service}
use wrongthink.Service.Joins.{views, write_rows-inner_join}
use wrongthink.Service.Messaging.{get_wrongthink_messages}
use wrongthink.Service.Messaging.Fetching.{message_of_row}

-- A stored message with the name of its author, as the client gets it.
abbrev pub message_view : ℕ → Message → User → WrongthinkMessage
message_view channelid m u = record {
  uname = u.uname;
  channelname = no_message.channelname;
  channelid = channelid;
  userid = m.user_id;
  threadid = m.thread_id;
  threadchild = m.thread_child;
  edited = m.edited;
  text = m.mtext;
  date = m.mdate;
  messageid = m.msg_id;
}

reads_message :
    (id : ℕ) (m : Message) (u : User)
    → message_of_row id (join_row TableName.message (λ m. m.user_id) message_cells m u)
      ≡ ok (message_view id m u)
unfolding message_of_row position columns
reads_message id m u = ground arith

-- On a complete schema, where the keys of messages rise in the order of insertion, the call writes
-- each stored message of the channel, oldest first, with the name of its author, once for each
-- account that has the author's key; it answers OK and changes nothing.
pub get_wrongthink_messages_lem :
    (request : GetWrongthinkMessagesRequest) (s : Service)
    → IsReady s.db
    → Rising (λ (m : Message). m.msg_id) 1 s.db.message.rows
    → get_wrongthink_messages request s ≡ (
      ok_status,
      views
          (λ m. m.user_id)
          (message_view request.channelid)
          (filter (in_channel request.channelid) s.db.message.rows)
          s.db.users.rows,
      s,
    )
unfolding get_wrongthink_messages
get_wrongthink_messages_lem request s ready rising = rw (
  get_channel_messages_ready s.db ready request.channelid,
  order_by-Rising (λ (m : Message). m.msg_id) 1
      (filter (in_channel request.channelid) s.db.message.rows)
      (Rising-filter (λ (m : Message). m.msg_id) (in_channel request.channelid) 1 s.db.message.rows
        rising),
  write_rows-inner_join TableName.message (λ (m : Message). m.user_id) message_cells
      (message_of_row request.channelid) (message_view request.channelid)
      (reads_message request.channelid) (filter (in_channel request.channelid) s.db.message.rows)
      s.db.users.rows,
)
