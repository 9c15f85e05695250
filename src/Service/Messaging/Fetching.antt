-- ===== src/Service/Messaging/Fetching.antt =====
-- The body of the loop in `GetWrongthinkMessagesImpl`: columns are read by name.
use wrongthink.Base.{ℕ}
use wrongthink.Action.Outcomes.{◌>>=◌}
use wrongthink.Action.{Outcome, ok}
use wrongthink.Proto.{WrongthinkMessage, no_message}
use wrongthink.Db.Cells.{Row, get_int_named, get_text_named}
use wrongthink.Service.Places.Rows.{truth}

unfoldable pub message_of_row : ℕ → Row → Outcome WrongthinkMessage
message_of_row channelid row = do
  uname ← get_text_named "uname" row
  userid ← get_int_named "user_id" row
  threadid ← get_int_named "thread_id" row
  threadchild ← get_int_named "thread_child" row
  edited ← get_int_named "edited" row
  text ← get_text_named "mtext" row
  date ← get_int_named "mdate" row
  messageid ← get_int_named "msg_id" row
  ok (record {
    uname = uname;
    channelname = no_message.channelname;
    channelid = channelid;
    userid = userid;
    threadid = threadid;
    threadchild = truth threadchild;
    edited = truth edited;
    text = text;
    date = date;
    messageid = messageid;
  })
