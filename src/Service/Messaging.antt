-- ===== src/Service/Messaging.antt =====
-- The handlers that send, fetch and listen to messages (WrongthinkServiceImpl.cpp).
pub mod Fetching
pub mod Sending
pub mod Streams
pub mod Posted
pub mod Listing
pub mod RoundTrip
pub mod Chat
pub mod Threads
pub mod Watched
pub mod Listening
pub mod Entering
use wrongthink.Base.{
  ℕ, zero, suc, String, Bool, true, false, Option, none, some, List, [], ◌∷◌, ◌==◌, length,
  if◌then◌else◌,
}
use wrongthink.Action.{Action, Outcome, ok, thrown, pure, ◌>>=◌, ◌>>◌}
use wrongthink.Proto.{
  Status, ok_status, invalid_status, WrongthinkMessage, GetWrongthinkMessagesRequest,
}
use wrongthink.Channel.{SynchronizedChannel, append_message, default_channel}
use wrongthink.Db.Engine.{Engine}
use wrongthink.Db.Cells.{Row}
use wrongthink.Db.Messages.{Post, insert_message_row, get_channel_messages}
use wrongthink.Service.{
  Service, on_db, live_channel, update_channel, check_for_channel, caught, streamed, ReaderWrapper,
  read,
}
use wrongthink.Service.Messaging.Fetching.{message_of_row}

-- The columns that the insert takes from a message.
abbrev pub post : WrongthinkMessage → Post
post msg = record {
  user_id = msg.userid;
  channel = msg.channelid;
  thread_id = msg.threadid;
  thread_child = msg.threadchild;
  text = msg.text;
}

-- channelMap[msg.channelid()].appendMessage(msg)
pub broadcast : WrongthinkMessage → Action Service (Unit {0})
unfolding append_message
broadcast msg s = (
  ok tt,
  record s { channel_map = update_channel msg.channelid (append_message msg) s.channel_map },
)

-- What both kinds of send do with one message: true if the channel is known.
pub send_one : Engine → ℕ → WrongthinkMessage → Action Service Bool
send_one e now msg = do
  known ← check_for_channel e msg.channelid
  if known
      then (do broadcast msg; on_db (insert_message_row e now (post msg)); pure true)
      else pure false

pub send_wrongthink_message_web : Engine → ℕ → WrongthinkMessage → Service → Status × Service
send_wrongthink_message_web e now msg s =
    caught ((do known ← send_one e now msg; pure (if known then ok_status else invalid_status)) s)

-- One round of `while (reader->Read(&msg))`: a message that was read, and the rest of the loop.
unfoldable pub send_round :
    Engine → ℕ → Option WrongthinkMessage → Action Service Status → Action Service Status
send_round e now none rest = pure ok_status
send_round e now (some msg) rest = do
  known ← send_one e now msg
  if known then rest else pure invalid_status

-- The loop, with fuel; each insert has a clock of its own.
unfoldable pub send_loop :
    Engine → (ℕ → ℕ) → ℕ → ReaderWrapper WrongthinkMessage → Action Service Status
unfolding send_round
send_loop e clock zero reader = pure ok_status
send_loop e clock (suc fuel) reader =
    let (msg, reader') = read reader in
    let rest = send_loop e clock fuel reader' in send_round e (clock reader.pos) msg rest

-- A round reads one message, so that one more than the messages are enough.
unfoldable pub send_wrongthink_message :
    Engine → (ℕ → ℕ) → ReaderWrapper WrongthinkMessage → Service → Status × Service
unfolding send_loop
send_wrongthink_message e clock reader s =
    caught (send_loop e clock (suc (length reader.obj_list)) reader s)

pub get_wrongthink_messages :
    GetWrongthinkMessagesRequest → Service → Status × List WrongthinkMessage × Service
get_wrongthink_messages request s =
    streamed (message_of_row request.channelid) (on_db (get_channel_messages request.channelid) s)

-- `ListenWrongthinkMessagesImpl` up to its loop: `true` where it goes on to wait for messages of
-- the channel, for which `channelMap[…]` makes an entry. It has no `catch`. The loop is
-- `Channel.Listeners`.
pub listen_start : Engine → ℕ → Action Service Bool
listen_start e channelid = do
  known ← check_for_channel e channelid
  if known
      then (λ s.
          (ok true, record s { channel_map = update_channel channelid (λ c. c) s.channel_map }))
      else pure false

-- `DeleteMessage` returns an empty status, which is OK.
abbrev pub delete_message : Service → Status × Service
delete_message s = (ok_status, s)
