-- ===== src/Service/Messaging/Posted.antt =====
-- What a stream of messages leaves on each way out (`SendWrongthinkMessageImpl`,
-- WrongthinkServiceImpl.cpp).
use mathlib.Core.Path.{subst}
use mathlib.Core.List.{map-append, append_assoc, append-nil}
use wrongthink.Base.{
  ℕ, suc, ◌+◌, Bool, true, false, some, List, [], ◌∷◌, ◌++◌, map, filter, ◌≡◌, refl, ap, ◌∙◌, sym,
  arith, ◌==◌, length, All, if◌then◌else◌,
}
use wrongthink.Action.{Exception}
use wrongthink.Proto.{WrongthinkMessage, ok_status, invalid_status, internal_status}
use wrongthink.Db.Engine.{Engine, i_null}
use wrongthink.Db.Tables.{Message}
use wrongthink.Db.Messages.{Post, message_violation}
use wrongthink.Service.{Service, caught}
use wrongthink.Service.Cache.{channel_exists, IsServing, check_absent, history}
use wrongthink.Service.Messaging.{post, send_round, send_wrongthink_message}
use wrongthink.Service.Messaging.Sending.{
  send_one_unknown, posted, heard_only, IsDeliverable, send_one-posted, send_one_heard,
  posted-IsServing, history-heard,
}
use wrongthink.Service.Messaging.Streams.{reader_at, send_list, send_loop-eq-send_list}

-- The service after each message was posted, in order.
unfoldable pub posted_all : Engine → (ℕ → ℕ) → ℕ → List WrongthinkMessage → Service → Service
posted_all e clock n [] s = s
posted_all e clock n (msg ∷ rest) s = posted_all e clock (suc n) rest (posted e (clock n) msg s)

module _ (e : Engine) (clock : ℕ → ℕ) where
  -- Posting leaves the accounts and the channels as they are.
  channel_exists-posted_all :
      (n id : ℕ) (msgs : List WrongthinkMessage) (s : Service)
      → channel_exists id (posted_all e clock n msgs s).db ≡ channel_exists id s.db
  unfolding posted_all
  channel_exists-posted_all n id [] s = refl
  channel_exists-posted_all n id (msg ∷ msgs) s =
      channel_exists-posted_all (suc n) id msgs (posted e (clock n) msg s)

  message_violation-posted_all :
      (n : ℕ) (p : Post) (msgs : List WrongthinkMessage) (s : Service)
      → message_violation e p (posted_all e clock n msgs s).db ≡ message_violation e p s.db
  unfolding posted_all message_violation
  message_violation-posted_all n p [] s = refl
  message_violation-posted_all n p (msg ∷ msgs) s =
      message_violation-posted_all (suc n) p msgs (posted e (clock n) msg s)

  pub users-posted_all :
      (n : ℕ) (msgs : List WrongthinkMessage) (s : Service)
      → (posted_all e clock n msgs s).db.users ≡ s.db.users
  unfolding posted_all
  users-posted_all n [] s = refl
  users-posted_all n (msg ∷ msgs) s = users-posted_all (suc n) msgs (posted e (clock n) msg s)

module _ (e : Engine) (clock : ℕ → ℕ) (null : e.missing_row ≡ i_null) where
  send_list_posted :
      (n : ℕ) (good rest : List WrongthinkMessage) (s : Service)
      → IsServing s
      → All (IsDeliverable e s) good
      → send_list e clock n (good ++ rest) s
        ≡ send_list e clock (n + length good) rest (posted_all e clock n good s)
  unfolding send_list posted_all send_round message_violation
  send_list_posted n [] rest s v d = ap (λ m. send_list e clock m rest s) (omega arith)
  send_list_posted n (msg ∷ good) rest s v d = rw (send_one-posted e (clock n) msg s null v d.0) (
      send_list_posted (suc n) good rest (posted e (clock n) msg s)
        (posted-IsServing e (clock n) msg s null v d.0.0) d.1
      ∙ ap
          (λ m.
            send_list e clock m rest (posted_all e clock (suc n) good (posted e (clock n) msg s)))
          (omega arith))

  pub posted_all-IsServing :
      (n : ℕ) (good : List WrongthinkMessage) (s : Service)
      → IsServing s
      → All (IsDeliverable e s) good
      → IsServing (posted_all e clock n good s)
  unfolding posted_all message_violation
  posted_all-IsServing n [] s v d = v
  posted_all-IsServing n (msg ∷ good) s v d =
      posted_all-IsServing (suc n) good (posted e (clock n) msg s)
        (posted-IsServing e (clock n) msg s null v (d.0.0)) d.1

  send_stream :
      (good rest : List WrongthinkMessage) (s : Service)
      → IsServing s
      → All (IsDeliverable e s) good
      → send_wrongthink_message e clock (reader_at (good ++ rest) 0) s
        ≡ caught (send_list e clock (length good) rest (posted_all e clock 0 good s))
  unfolding send_wrongthink_message
  send_stream good rest s v d =
      rw
        (send_loop-eq-send_list e clock (suc (length (good ++ rest))) 0 [] (good ++ rest) refl
          (omega arith))
        (ap caught (
          send_list_posted 0 good rest s v d
          ∙ ap (λ m. send_list e clock m rest (posted_all e clock 0 good s)) (omega arith)))

  -- On a complete schema, with a coherent map and where a row that was not found is null, a stream
  -- of messages that can all be delivered is answered OK, with each message posted in the order of
  -- the stream.
  pub send_stream_ok :
      (msgs : List WrongthinkMessage) (s : Service)
      → IsServing s
      → All (IsDeliverable e s) msgs
      → send_wrongthink_message e clock (reader_at msgs 0) s
        ≡ (ok_status, posted_all e clock 0 msgs s)
  send_stream_ok msgs s v d =
      subst
        (λ l.
          send_wrongthink_message e clock (reader_at l 0) s
          ≡ (ok_status, posted_all e clock 0 msgs s))
        (append-nil msgs) (unfold send_list in send_stream msgs [] s v d)

  -- On a complete schema, with a coherent map and where a row that was not found is null: behind
  -- messages that can be delivered, at the first message to a channel that is not in the table, the
  -- stream ends with INVALID_ARGUMENT. The messages before it stay posted, those behind it are not
  -- read.
  pub send_stream_unknown_channel :
      (good rest : List WrongthinkMessage) (bad : WrongthinkMessage) (s : Service)
      → IsServing s
      → All (IsDeliverable e s) good
      → channel_exists bad.channelid s.db ≡ false
      → send_wrongthink_message e clock (reader_at (good ++ bad ∷ rest) 0) s
        ≡ (invalid_status, posted_all e clock 0 good s)
  unfolding send_list send_round
  send_stream_unknown_channel good rest bad s v d absent =
      send_stream good (bad ∷ rest) s v d
      ∙ rw (
          send_one_unknown e (clock (length good)) bad (posted_all e clock 0 good s)
            (posted_all e clock 0 good s)
            (check_absent e bad.channelid (posted_all e clock 0 good s) null
              (posted_all-IsServing 0 good s v d)
              (channel_exists-posted_all e clock 0 bad.channelid good s ∙ absent)))

  -- On a complete schema, with a coherent map and where a row that was not found is null: behind
  -- messages that can be delivered, at the first message to a known channel that a constraint
  -- refuses, the stream ends with INTERNAL. The messages before it stay posted, and it was handed
  -- to its channel but not stored.
  pub send_stream_refused :
      (good rest : List WrongthinkMessage) (bad : WrongthinkMessage) (violation : Exception)
      (s : Service)
      → IsServing s
      → All (IsDeliverable e s) good
      → channel_exists bad.channelid s.db ≡ true
      → message_violation e (post bad) s.db ≡ some violation
      → send_wrongthink_message e clock (reader_at (good ++ bad ∷ rest) 0) s
        ≡ (internal_status, heard_only e bad (posted_all e clock 0 good s))
  unfolding send_list send_round
  send_stream_refused good rest bad violation s v d there h =
      send_stream good (bad ∷ rest) s v d
      ∙ rw (
          send_one_heard e (clock (length good)) bad (posted_all e clock 0 good s) null
            (posted_all-IsServing 0 good s v d) violation
            (channel_exists-posted_all e clock 0 bad.channelid good s ∙ there)
            (message_violation-posted_all e clock 0 (post bad) good s ∙ h))

-- The columns that were inserted, of a row.
abbrev pub post_of : Message → Post
post_of m = record {
  user_id = m.user_id;
  channel = m.channel;
  thread_id = m.thread_id;
  thread_child = m.thread_child;
  text = m.mtext;
}

-- Posting appends the messages' columns to the table, in order.
pub posts-posted_all :
    (e : Engine) (clock : ℕ → ℕ) (n : ℕ) (msgs : List WrongthinkMessage) (s : Service)
    → map post_of (posted_all e clock n msgs s).db.message.rows
      ≡ map post_of s.db.message.rows ++ map post msgs
unfolding posted_all
posts-posted_all e clock n [] s = sym (append-nil _)
posts-posted_all e clock n (msg ∷ msgs) s =
    posts-posted_all e clock (suc n) msgs (posted e (clock n) msg s)
    ∙ ap (λ l. l ++ map post msgs) (map-append post_of s.db.message.rows _)
    ∙ append_assoc (map post_of s.db.message.rows) (post msg ∷ []) (map post msgs)

-- On a complete schema, with a coherent map and where a row that was not found is null, posting
-- messages that can all be delivered appends to what each live channel holds the messages sent to
-- it, in order.
pub history-posted_all :
    (e : Engine) (clock : ℕ → ℕ) (null : e.missing_row ≡ i_null) (j n : ℕ)
    (msgs : List WrongthinkMessage) (s : Service)
    → IsServing s
    → All (IsDeliverable e s) msgs
    → history j (posted_all e clock n msgs s).channel_map
      ≡ history j s.channel_map ++ filter (λ m. m.channelid == j) msgs
unfolding posted_all message_violation filter
history-posted_all e clock null j n [] s v d = sym (append-nil _)
history-posted_all e clock null j n (msg ∷ msgs) s v d =
    history-posted_all e clock null j (suc n) msgs (posted e (clock n) msg s)
      (posted-IsServing e (clock n) msg s null v d.0.0) d.1
    ∙ ap (λ l. l ++ filter (λ (m : WrongthinkMessage). m.channelid == j) msgs)
        (history-heard e (clock n) msg s null v j)
    ∙ append_assoc (history j s.channel_map) _ _
    ∙ ap (λ l. history j s.channel_map ++ l) (one_more (msg.channelid == j))
  where
    one_more :
        (b : Bool)
        → (if b then msg ∷ [] else []) ++ filter (λ (m : WrongthinkMessage). m.channelid == j) msgs
          ≡ (if b
              then msg ∷ filter (λ (m : WrongthinkMessage). m.channelid == j) msgs
              else filter (λ (m : WrongthinkMessage). m.channelid == j) msgs)
    one_more true = refl
    one_more false = refl
