-- ===== src/Service/Messaging/Threads/Races.antt =====
-- Two sends to one channel at once (`SendWrongthinkMessageWeb`, WrongthinkServiceImpl.cpp).
use mathlib.Core.List.{append_assoc, map-append}
use wrongthink.Base.{ℕ, true, arith, none, List, [], ◌∷◌, ◌++◌, ◌≡◌, refl, ap, ◌∙◌, ◌==◌, ==_refl}
use wrongthink.Concurrent.{two, run}
use wrongthink.Proto.{WrongthinkMessage, ok_status}
use wrongthink.Channel.{append_message}
use wrongthink.Db.Engine.{Engine}
use wrongthink.Db.Tables.{Db}
use wrongthink.Db.Sql.Schema.{IsReady}
use wrongthink.Db.Messages.{Post, message_violation}
use wrongthink.Db.Messages.Posting.{with_message, insert_message_row_accepted}
use wrongthink.Service.{Service, is_live, update_channel}
use wrongthink.Service.Cache.{history, history-append_message}
use wrongthink.Service.Messaging.{post, broadcast}
use wrongthink.Service.Messaging.Posted.{post_of}
use wrongthink.Service.Messaging.Threads.{
  counting, broadcasting, inserting, answered, advance, run_sends,
}
use wrongthink.Service.Messaging.Threads.Backed.{posts}

-- The first call hands its message over before the second, and inserts it behind the second.
abbrev pub overtaking : ℕ → List (ℕ × ℕ)
overtaking now = (0, now) ∷ (1, now) ∷ (0, now) ∷ (1, now) ∷ (1, now) ∷ (0, now) ∷ []

module _ (e : Engine) (now : ℕ) (msg : WrongthinkMessage) (s : Service) where
  advance_live :
      is_live msg.channelid s.channel_map ≡ true
      → advance e now (counting msg) s ≡ (broadcasting msg, s)
  unfolding advance
  advance_live live = rw live

  advance_handed : advance e now (broadcasting msg) s ≡ (
    inserting msg,
    record s { channel_map = update_channel msg.channelid (append_message msg) s.channel_map },
  )
  unfolding advance broadcast
  advance_handed = refl

  advance_stored :
      IsReady s.db
      → message_violation e (post msg) s.db ≡ none
      → advance e now (inserting msg) s
        ≡ (answered msg ok_status, record s { db = with_message e now (post msg) s.db })
  unfolding advance
  advance_stored ready free = rw (insert_message_row_accepted s.db ready e now (post msg) free)

message_violation-with_message :
    (e : Engine) (now : ℕ) (p q : Post) (db : Db)
    → message_violation e p (with_message e now q db) ≡ message_violation e p db
unfolding message_violation
message_violation-with_message e now p q db = refl

-- The service after two messages were handed over, and stored in the other order.
abbrev crossed : Engine → ℕ → WrongthinkMessage → WrongthinkMessage → Service → Service
crossed e now first second s = record {
  db = with_message e now (post first) (with_message e now (post second) s.db);
  channel_map =
      update_channel second.channelid (append_message second)
        (update_channel first.channelid (append_message first) s.channel_map);
}

history-crossed :
    (e : Engine) (now : ℕ) (first second : WrongthinkMessage) (s : Service)
    → second.channelid ≡ first.channelid
    → history first.channelid (crossed e now first second s).channel_map
      ≡ history first.channelid s.channel_map ++ first ∷ second ∷ []
history-crossed e now first second s same =
    history-append_message second.channelid first.channelid second
      (update_channel first.channelid (append_message first) s.channel_map)
    ∙ rw
        (
          history-append_message first.channelid first.channelid first s.channel_map,
          ap (λ id. id == first.channelid) same ∙ ==_refl first.channelid,
          ==_refl first.channelid,
        )
        (append_assoc (history first.channelid s.channel_map) (first ∷ []) (second ∷ []))

posts-crossed :
    (e : Engine) (now : ℕ) (first second : WrongthinkMessage) (s : Service)
    → posts (crossed e now first second s) ≡ posts s ++ post second ∷ post first ∷ []
posts-crossed e now first second s =
    map-append post_of (with_message e now (post second) s.db).message.rows _
    ∙ ap (λ l. l ++ post first ∷ []) (map-append post_of s.db.message.rows _)
    ∙ append_assoc (posts s) (post second ∷ []) (post first ∷ [])

-- Two calls send to one live channel, where no constraint refuses their messages. If the second
-- inserts its message between the first's `appendMessage` and its insert, both answer OK; then what
-- the live channel holds ends with the first message and the second, in this order, and the table
-- with the second and the first.
pub two-run_sends :
    (e : Engine) (now : ℕ) (first second : WrongthinkMessage) (s : Service)
    → IsReady s.db
    → is_live first.channelid s.channel_map ≡ true
    → second.channelid ≡ first.channelid
    → message_violation e (post first) s.db ≡ none
    → message_violation e (post second) s.db ≡ none
    → let t =
        run_sends e
          (overtaking now)
          (record { shared = s; thread = two (counting first) (counting second) }) in
      (t.thread 0 ≡ answered first ok_status)
      × (t.thread 1 ≡ answered second ok_status)
      × (history first.channelid t.shared.channel_map
          ≡ history first.channelid s.channel_map ++ first ∷ second ∷ [])
      × (posts t.shared ≡ posts s ++ post second ∷ post first ∷ [])
unfolding run
two-run_sends e now first second s ready live same free1 free2 =
    let both_handed : Service = record s {
      channel_map =
          update_channel second.channelid (append_message second)
            (update_channel first.channelid (append_message first) s.channel_map);
    } in
    let one_stored : Service = record both_handed { db = with_message e now (post second) s.db } in
    rw
      (
        advance_live e now first s live,
        advance_live e now second s (ap (λ id. is_live id s.channel_map) same ∙ live),
        advance_handed e now first s,
        advance_handed e now second (record s {
          channel_map = update_channel first.channelid (append_message first) s.channel_map;
        }),
        advance_stored e now second both_handed ready free2,
        advance_stored e now first one_stored (ground (arith, ready))
            (message_violation-with_message e now (post first) (post second) s.db ∙ free1),
      )
      (refl, refl, history-crossed e now first second s same, posts-crossed e now first second s)
