-- ===== src/Service/Messaging/RoundTrip.antt =====
-- What is sent to a channel is what is fetched from it (`SendWrongthinkMessageImpl` and
-- `GetWrongthinkMessagesImpl`, WrongthinkServiceImpl.cpp).
use wrongthink.Base.{
  ℕ, suc, Bool, true, List, [], ◌∷◌, ◌++◌, map, filter, filter-append, any, ◌≡◌, refl, ap, ◌∙◌, sym,
  arith, ◌==◌, ==→eq, All, All-append, All-filter, Bool-cases, inl, inr,
}
use mathlib.Core.Path.{ap₂}
use wrongthink.Proto.{WrongthinkMessage, GetWrongthinkMessagesRequest}
use wrongthink.Db.Engine.{Engine, i_null, IssuesFreshIds}
use wrongthink.Db.Tables.{User, Message, Db}
use wrongthink.Db.Keys.{IsKeyed, appended-IsKeyed}
use wrongthink.Db.Order.{Rising}
use wrongthink.Db.Users.{has_id}
use wrongthink.Db.Messages.{Post, message_violation, new_message, in_channel}
use wrongthink.Service.{Service}
use wrongthink.Service.Cache.{IsServing}
use wrongthink.Service.Joins.{map-views}
use wrongthink.Service.Messaging.{post, send_wrongthink_message, get_wrongthink_messages}
use wrongthink.Service.Messaging.Sending.{posted, IsDeliverable, posted-IsServing}
use wrongthink.Service.Messaging.Streams.{reader_at}
use wrongthink.Service.Messaging.Posted.{posted_all, send_stream_ok, post_of, posts-posted_all}
use wrongthink.Service.Messaging.Listing.{message_view, get_wrongthink_messages_lem}

-- Each author is an account.
abbrev pub HasAuthors : Db → Type 0
HasAuthors db = All (λ (m : Message). any (has_id m.user_id) db.users.rows ≡ true) db.message.rows

-- A state in which every stored message can be fetched.
pub record IsFetchable (s : Service) : Type 0 where
  pub serving : IsServing s
  pub accounts : Rising (λ (u : User). u.user_id) 1 s.db.users.rows
  pub messages : IsKeyed (λ (m : Message). m.msg_id) s.db.message
  pub authors : HasAuthors s.db

-- A post, of a channel.
abbrev on_channel : ℕ → Post → Bool
on_channel id p = id == p.channel

abbrev channel_post : ℕ → Message → Post
channel_post id m = record (post_of m) { channel = id }

posts_of_channel :
    (id : ℕ) (ms : List Message)
    → map (channel_post id) (filter (in_channel id) ms) ≡ filter (on_channel id) (map post_of ms)
unfolding filter
posts_of_channel id [] = refl
posts_of_channel id (m ∷ ms) = elim (Bool-cases (id == m.channel)) [
  | inl here ↦ rw here (cc (==→eq id m.channel here, posts_of_channel id ms))
  | inr other ↦ rw other (posts_of_channel id ms)
]

posts_sent :
    (id : ℕ) (ms : List WrongthinkMessage)
    → filter (on_channel id) (map post ms) ≡ map post (filter (λ m. id == m.channelid) ms)
unfolding filter
posts_sent id [] = refl
posts_sent id (m ∷ ms) = ground (arith, posts_sent id ms)

module _ (e : Engine) (clock : ℕ → ℕ) (null : e.missing_row ≡ i_null) (fresh : IssuesFreshIds e)
    (enforced : e.enforces_references ≡ true) where
  author_of_deliverable :
      (msg : WrongthinkMessage) (s : Service)
      → IsDeliverable e s msg
      → any (has_id msg.userid) s.db.users.rows ≡ true
  unfolding message_violation
  author_of_deliverable msg s d = ground (arith, enforced)

  posted-IsFetchable :
      (now : ℕ) (msg : WrongthinkMessage) (s : Service)
      → IsFetchable s
      → IsDeliverable e s msg
      → IsFetchable (posted e now msg s)
  posted-IsFetchable now msg s v d = record {
    serving = posted-IsServing e now msg s null v.serving d.0;
    accounts = v.accounts;
    messages =
        appended-IsKeyed (λ (m : Message). m.msg_id) e fresh (new_message now (post msg))
          (λ i. refl) s.db.message v.messages;
    authors = All-append _ s.db.message.rows _ v.authors (author_of_deliverable msg s d, tt);
  }

  posted_all-IsFetchable :
      (n : ℕ) (msgs : List WrongthinkMessage) (s : Service)
      → IsFetchable s
      → All (IsDeliverable e s) msgs
      → IsFetchable (posted_all e clock n msgs s)
  unfolding posted_all message_violation
  posted_all-IsFetchable n [] s v d = v
  posted_all-IsFetchable n (msg ∷ msgs) s v d =
      posted_all-IsFetchable (suc n) msgs (posted e (clock n) msg s)
        (posted-IsFetchable (clock n) msg s v d.0) d.1

fetched_posts :
    (request : GetWrongthinkMessagesRequest) (s : Service)
    → IsFetchable s
    → map post (get_wrongthink_messages request s).1
      ≡ filter (on_channel request.channelid) (map post_of s.db.message.rows)
fetched_posts request s v =
    rw (get_wrongthink_messages_lem request s v.serving.ready v.messages.rising) (
      map-views (λ (m : Message). m.user_id) (message_view request.channelid)
        (channel_post request.channelid) post (λ m u. refl) s.db.users.rows v.accounts
        (filter (in_channel request.channelid) s.db.message.rows)
        (All-filter _ (in_channel request.channelid) s.db.message.rows v.authors)
      ∙ posts_of_channel request.channelid s.db.message.rows)

-- After a stream of messages that can all be delivered, on a state in which every stored message
-- can be fetched, fetching a channel gives what it gave before, and behind that the messages of the
-- stream for this channel in the order of the stream: their author, thread, text and channel are
-- those that were sent. This is so where references are enforced, new rows get fresh keys and a row
-- that was not found is null.
pub get_messages-send_stream :
    (e : Engine) (clock : ℕ → ℕ) (request : GetWrongthinkMessagesRequest)
    (msgs : List WrongthinkMessage) (s : Service)
    → e.missing_row ≡ i_null
    → IssuesFreshIds e
    → e.enforces_references ≡ true
    → IsFetchable s
    → All (IsDeliverable e s) msgs
    → map post
        (get_wrongthink_messages request (send_wrongthink_message e clock (reader_at msgs 0) s).1).1
      ≡ map post (get_wrongthink_messages request s).1
        ++ map post (filter (λ m. request.channelid == m.channelid) msgs)
get_messages-send_stream e clock request msgs s null fresh enforced v d =
    rw (send_stream_ok e clock null msgs s v.serving d) (
      fetched_posts request (posted_all e clock 0 msgs s)
        (posted_all-IsFetchable e clock null fresh enforced 0 msgs s v d)
      ∙ ap (filter (on_channel request.channelid)) (posts-posted_all e clock 0 msgs s)
      ∙ filter-append (on_channel request.channelid) (map post_of s.db.message.rows) (map post msgs)
      ∙ ap₂ ◌++◌ (sym (fetched_posts request s v)) (posts_sent request.channelid msgs))
