-- ===== src/Service/Messaging/Sending.antt =====
-- Sending one message: broadcast, then stored (`SendWrongthinkMessageWeb` and one round of
-- `SendWrongthinkMessageImpl`, WrongthinkServiceImpl.cpp).
use wrongthink.Base.{
  ℕ, true, false, none, some, [], ◌∷◌, ◌++◌, ◌≡◌, refl, ap, ◌∙◌, ◌==◌, ==_refl, any, if◌then◌else◌,
}
use wrongthink.Action.{Exception, ok, thrown, foreign_key_violation}
use wrongthink.Proto.{WrongthinkMessage, internal_status}
use wrongthink.Channel.{append_message}
use wrongthink.Db.Engine.{Engine, i_null}
use wrongthink.Db.Sql.Schema.{IsReady}
use wrongthink.Db.Users.{has_id}
use wrongthink.Db.Messages.{message_violation}
use wrongthink.Db.Messages.Posting.{
  with_message, refused_message, insert_message_row_accepted, insert_message_row_refused,
}
use wrongthink.Service.{Service, update_channel, check_for_channel}
use wrongthink.Service.Cache.{
  channel_exists, IsServing, IsChecked, checked_map, check_for_channel_exact, history,
  history-append_message, update_channel-IsCoherent,
}
use wrongthink.Service.Messaging.{post, broadcast, send_one, send_wrongthink_message_web}

-- The service after the message was handed to the live channel.
abbrev pub heard : WrongthinkMessage → Service → Service
heard msg s = record s {
  channel_map = update_channel msg.channelid (append_message msg) s.channel_map;
}

module _ (e : Engine) (now : ℕ) (msg : WrongthinkMessage) (s s1 : Service) (ready : IsReady s1.db)
    (known : check_for_channel e msg.channelid s ≡ (ok true, s1)) where
  pub send_one_accepted :
      message_violation e (post msg) s1.db ≡ none
      → send_one e now msg s
        ≡ (ok true, record (heard msg s1) { db = with_message e now (post msg) s1.db })
  unfolding send_one broadcast
  send_one_accepted h = rw (known, insert_message_row_accepted s1.db ready e now (post msg) h)

  pub send_one_refused :
      (violation : Exception)
      → message_violation e (post msg) s1.db ≡ some violation
      → send_one e now msg s
        ≡ (thrown violation, record (heard msg s1) { db = refused_message e s1.db })
  unfolding send_one broadcast
  send_one_refused violation h =
      rw (known, insert_message_row_refused s1.db ready e now (post msg) violation h)

pub send_one_unknown :
    (e : Engine) (now : ℕ) (msg : WrongthinkMessage) (s s1 : Service)
    → check_for_channel e msg.channelid s ≡ (ok false, s1)
    → send_one e now msg s ≡ (ok false, s1)
unfolding send_one
send_one_unknown e now msg s s1 h = rw h

-- The service with the message behind those of its channel, in memory and in the table.
abbrev pub posted : Engine → ℕ → WrongthinkMessage → Service → Service
posted e now msg s = record {
  db = with_message e now (post msg) s.db;
  channel_map = update_channel msg.channelid (append_message msg) (checked_map e msg.channelid s);
}

-- The service with the message in memory only.
abbrev pub heard_only : Engine → WrongthinkMessage → Service → Service
heard_only e msg s = record {
  db = refused_message e s.db;
  channel_map = update_channel msg.channelid (append_message msg) (checked_map e msg.channelid s);
}

-- The channel is in the table, and no constraint refuses the row.
abbrev pub IsDeliverable : Engine → Service → WrongthinkMessage → Type 0
IsDeliverable e s msg =
    (channel_exists msg.channelid s.db ≡ true) × (message_violation e (post msg) s.db ≡ none)

module _ (e : Engine) (now : ℕ) (msg : WrongthinkMessage) (s : Service)
    (null : e.missing_row ≡ i_null) (v : IsServing s) where
  checks : IsChecked e msg.channelid s
  checks = check_for_channel_exact e msg.channelid s null v

  known_channel :
      channel_exists msg.channelid s.db ≡ true
      → check_for_channel e msg.channelid s
        ≡ (ok true, record s { channel_map = checked_map e msg.channelid s })
  known_channel there = checks.answer ∙ rw there

  pub send_one-posted : IsDeliverable e s msg → send_one e now msg s ≡ (ok true, posted e now msg s)
  send_one-posted d = send_one_accepted e now msg s _ v.ready (known_channel d.0) d.1

  pub send_one_heard :
      (violation : Exception)
      → channel_exists msg.channelid s.db ≡ true
      → message_violation e (post msg) s.db ≡ some violation
      → send_one e now msg s ≡ (thrown violation, heard_only e msg s)
  send_one_heard violation there h =
      send_one_refused e now msg s _ v.ready (known_channel there) violation h

  pub posted-IsServing : channel_exists msg.channelid s.db ≡ true → IsServing (posted e now msg s)
  posted-IsServing there = record {
    ready = record {
      has_users = v.ready.has_users;
      has_banned_users = v.ready.has_banned_users;
      has_banned_ips = v.ready.has_banned_ips;
      has_communities = v.ready.has_communities;
      has_channels = v.ready.has_channels;
      has_message = v.ready.has_message;
      has_control_message = v.ready.has_control_message;
    };
    coherent =
        update_channel-IsCoherent msg.channelid (append_message msg) s.db
          (checked_map e msg.channelid s) there checks.coherent;
  }

  -- What the channels hold in memory after a message was handed over.
  pub history-heard :
      (j : ℕ)
      → history j
          (update_channel msg.channelid (append_message msg) (checked_map e msg.channelid s))
        ≡ history j s.channel_map ++ (if msg.channelid == j then msg ∷ [] else [])
  history-heard j =
      history-append_message msg.channelid j msg (checked_map e msg.channelid s)
      ∙ ap (λ h. h ++ (if msg.channelid == j then msg ∷ [] else [])) (checks.same j)

-- A message of a user that does not exist, on a channel that does, where references are enforced, a
-- row that was not found is null, the schema is complete and the map coherent: the sender is told
-- INTERNAL and no row is added, but the message has gone to the live channel and stays in its
-- history.
pub send_web_unknown_user :
    (e : Engine) (now : ℕ) (msg : WrongthinkMessage) (s : Service)
    → e.missing_row ≡ i_null
    → IsServing s
    → e.enforces_references ≡ true
    → channel_exists msg.channelid s.db ≡ true
    → any (has_id msg.userid) s.db.users.rows ≡ false
    → ((send_wrongthink_message_web e now msg s).0 ≡ internal_status)
      × ((send_wrongthink_message_web e now msg s).1.db.message.rows ≡ s.db.message.rows)
      × (history msg.channelid (send_wrongthink_message_web e now msg s).1.channel_map
          ≡ history msg.channelid s.channel_map ++ msg ∷ [])
unfolding send_wrongthink_message_web message_violation
send_web_unknown_user e now msg s null v enforced there nobody =
    let refused : message_violation e (post msg) s.db ≡ some foreign_key_violation =
      rw (enforced, nobody) in
    rw (send_one_heard e now msg s null v foreign_key_violation there refused)
      (refl, refl, history-heard e now msg s null v msg.channelid ∙ rw (==_refl msg.channelid))
