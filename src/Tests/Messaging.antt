-- ===== src/Tests/Messaging.antt =====
-- The properties of messages, at the sample states.
use wrongthink.Base.{ℕ, [], ◌∷◌, ◌++◌, ◌≡◌, refl, map, filter, ◌==◌, any, arith}
use wrongthink.Proto.{ok_status, GetWrongthinkMessagesRequest}
use wrongthink.Db.Messages.{in_channel, message_violation}
use wrongthink.Service.Joins.{views}
use wrongthink.Service.Messaging.{post, send_wrongthink_message, get_wrongthink_messages}
use wrongthink.Service.Messaging.Streams.{reader_at}
use wrongthink.Service.Messaging.Listing.{message_view, get_wrongthink_messages_lem}
use wrongthink.Service.Messaging.RoundTrip.{IsFetchable, get_messages-send_stream}
use wrongthink.Tests.Engines.{postgres, postgres-IssuesFreshIds}
use wrongthink.Tests.Samples.{chat, chat_db, chat-IsReady, chat-IsServing, hi}

abbrev pub clock : ℕ → ℕ
clock n = 1600000000

abbrev fetch_general : GetWrongthinkMessagesRequest
fetch_general = record { channelid = 1; limit = 0; afterid = 0; afterdate = 0 }

chat-IsFetchable : IsFetchable chat
unfolding any
chat-IsFetchable = record {
  serving = chat-IsServing;
  accounts = (omega arith, (omega arith, tt));
  messages = record {
    rising = (omega arith, tt);
    below = (omega arith, tt);
    started = omega arith;
  };
  authors = (refl, tt);
}

get_messages-send_stream_example :
    map post
      (get_wrongthink_messages fetch_general
        (send_wrongthink_message postgres clock (reader_at (hi ∷ hi ∷ []) 0) chat).1).1
    ≡ map post (get_wrongthink_messages fetch_general chat).1
      ++ map post (filter (λ m. 1 == m.channelid) (hi ∷ hi ∷ []))
unfolding message_violation any
get_messages-send_stream_example =
    get_messages-send_stream postgres clock fetch_general (hi ∷ hi ∷ []) chat refl
      postgres-IssuesFreshIds refl chat-IsFetchable ((refl, refl), ((refl, refl), tt))

get_wrongthink_messages_lem_example : get_wrongthink_messages fetch_general chat ≡ (
  ok_status,
  views
      (λ m. m.user_id)
      (message_view 1)
      (filter (in_channel 1) chat_db.message.rows)
      chat_db.users.rows,
  chat,
)
get_wrongthink_messages_lem_example =
    get_wrongthink_messages_lem fetch_general chat chat-IsReady (omega arith, tt)
