-- ===== src/Service/Messaging/Threads/Interleaved.antt =====
-- What interleaved sends guarantee (`SendWrongthinkMessageWeb`, WrongthinkServiceImpl.cpp).
use mathlib.Core.List.{append-nil, map-append}
use wrongthink.Base.{
  Grown, not_grown, ℕ, String, true, List, [], find?-any-false, find?-any-true, ◌≡◌, refl, sym, ◌∙◌,
  arith, ==_refl, All-append, Bool-cases, Option-cases, inl, inr,
}
use wrongthink.Concurrent.{IsBackedPool, IsStepped, run-IsBackedPool}
use wrongthink.Proto.{invalid_status, WrongthinkMessage}
use wrongthink.Channel.{append_message, of_name}
use wrongthink.Db.Engine.{Engine}
use wrongthink.Db.Channels.{has_channel_id}
use wrongthink.Db.Channels.Listing.{get_channel_row_ready}
use wrongthink.Db.Messages.{message_violation}
use wrongthink.Db.Messages.Posting.{insert_message_row_accepted, insert_message_row_refused}
use wrongthink.Service.{Service, ChannelMap, is_live, emplace}
use wrongthink.Service.Cache.{
  channel_exists, IsServing, live_exists, history, history-emplace, history-append_message,
  update_channel-IsCoherent,
}
use wrongthink.Service.Messaging.{post, broadcast}
use wrongthink.Service.Messaging.Posted.{post_of}
use wrongthink.Service.Soundness.{BanLaw}
use wrongthink.Service.Soundness.Inserts.{with_message-IsSound, refused_message-IsSound}
use wrongthink.Service.Soundness.Handlers.{IsServedWith, IsServedSoundly, IsReliable}
use wrongthink.Service.Messaging.Threads.{
  Sending, counting, fetching, emplacing, broadcasting, inserting, answered, advance, Sends,
  run_sends,
}
use wrongthink.Service.Messaging.Threads.Backed.{
  posts, WasHanded, IsBacked, IsLater, same-IsLater, IsBacked-later,
}

-- A step that was run, and what it left.
abbrev IsAdvanced : BanLaw → Service → Sending × Service → Type 0
IsAdvanced Bans s r = IsStepped (IsServedWith Bans) IsBacked IsLater s r

module _ {Bans : BanLaw} (e : Engine) (reliable : IsReliable e) (now : ℕ) (s : Service)
    (v : IsServedWith Bans s) where
  same_service : (p : Sending) → IsBacked s p → IsAdvanced Bans s (p, s)
  same_service p backed = record { good = v; backed = backed; later = same-IsLater s }

  count_step : (msg : WrongthinkMessage) → IsAdvanced Bans s (advance e now (counting msg) s)
  unfolding advance
  count_step msg = elim (Bool-cases (is_live msg.channelid s.channel_map)) [
    | inl live ↦ rw live (
        same_service (broadcasting msg)
          (live_exists s.db msg.channelid s.channel_map v.serving.coherent live))
    | inr cold ↦ rw cold (same_service (fetching msg) tt)
  ]

  fetch_step : (msg : WrongthinkMessage) → IsAdvanced Bans s (advance e now (fetching msg) s)
  unfolding advance
  fetch_step msg = elim (Bool-cases (channel_exists msg.channelid s.db)) [
    | inl there ↦
        let (ch, found, hit) =
          find?-any-true (has_channel_id msg.channelid) s.db.channels.rows there in
        rw (get_channel_row_ready s.db v.serving.ready e msg.channelid, found)
          (same_service (emplacing msg ch.name) there)
    | inr absent ↦
        rw
          (
            get_channel_row_ready s.db v.serving.ready e msg.channelid,
            find?-any-false (has_channel_id msg.channelid) s.db.channels.rows absent,
            reliable.null,
          )
          (same_service (answered msg invalid_status) tt)
  ]

  -- A step that changes the map of live channels only.
  new_map :
      (p : Sending) (m : ChannelMap)
      → IsServing (record s { channel_map = m })
      → ((j : ℕ) → Grown (history j s.channel_map) (history j m))
      → IsBacked (record s { channel_map = m }) p
      → IsAdvanced Bans s (p, record s { channel_map = m })
  new_map p m serving handed backed = record {
    good = record { serving = serving; sound = v.sound };
    backed = backed;
    later = record {
      users = not_grown _;
      communities = not_grown _;
      channels = not_grown _;
      still = λ uid h. h;
      stored = not_grown _;
      handed = handed;
    };
  }

  emplace_step :
      (msg : WrongthinkMessage) (name : String)
      → channel_exists msg.channelid s.db ≡ true
      → IsAdvanced Bans s (advance e now (emplacing msg name) s)
  unfolding advance
  emplace_step msg name there = elim (Bool-cases (is_live msg.channelid s.channel_map)) [
    | inl live ↦ rw live (same_service (broadcasting msg) there)
    | inr cold ↦ rw cold (
        new_map (broadcasting msg)
          (emplace msg.channelid (of_name msg.channelid name) s.channel_map)
          (record {
            ready = v.serving.ready;
            coherent = All-append _ s.channel_map _ v.serving.coherent (there, tt);
          })
          (λ j. ([], history-emplace msg.channelid j name s.channel_map ∙ sym (append-nil _)))
          there)
  ]

  broadcast_step :
      (msg : WrongthinkMessage)
      → channel_exists msg.channelid s.db ≡ true
      → IsAdvanced Bans s (advance e now (broadcasting msg) s)
  unfolding advance broadcast
  broadcast_step msg there =
      new_map (inserting msg) _
        (record {
          ready = v.serving.ready;
          coherent =
              update_channel-IsCoherent msg.channelid (append_message msg) s.db s.channel_map there
                v.serving.coherent;
        })
        (λ j. (_, history-append_message msg.channelid j msg s.channel_map))
        (
          history msg.channelid s.channel_map,
          [],
          history-append_message msg.channelid msg.channelid msg s.channel_map
              ∙ rw (==_refl msg.channelid) refl,
        )

  insert_step :
      (msg : WrongthinkMessage)
      → WasHanded s msg
      → IsAdvanced Bans s (advance e now (inserting msg) s)
  unfolding advance
  insert_step msg handed = elim (Option-cases (message_violation e (post msg) s.db)) [
    | inl free ↦
        rw (insert_message_row_accepted s.db v.serving.ready e now (post msg) free) (record {
          good = record {
            serving = record {
              ready = ground (arith, v.serving.ready);
              coherent = v.serving.coherent;
            };
            sound =
                with_message-IsSound e reliable.fresh s.db v.sound v.serving.ready reliable.enforced
                  now (post msg) free;
          };
          backed = (handed, (posts s, [], map-append post_of s.db.message.rows _));
          later = record {
            users = not_grown _;
            communities = not_grown _;
            channels = not_grown _;
            still = λ uid h. h;
            stored = (_, map-append post_of s.db.message.rows _);
            handed = λ j. not_grown _;
          };
        })
    | inr (x, refused) ↦
        rw (insert_message_row_refused s.db v.serving.ready e now (post msg) x refused) (record {
          good = record {
            serving = record {
              ready = ground (arith, v.serving.ready);
              coherent = v.serving.coherent;
            };
            sound = refused_message-IsSound e reliable.fresh s.db v.sound (post msg) x;
          };
          backed = tt;
          later = record {
            users = not_grown _;
            communities = not_grown _;
            channels = not_grown _;
            still = λ uid h. h;
            stored = not_grown _;
            handed = λ j. not_grown _;
          };
        })
  ]

  pub advance-IsAdvanced : (p : Sending) → IsBacked s p → IsAdvanced Bans s (advance e now p s)
  unfolding advance
  advance-IsAdvanced (counting msg) h = count_step msg
  advance-IsAdvanced (fetching msg) h = fetch_step msg
  advance-IsAdvanced (emplacing msg name) h = emplace_step msg name h
  advance-IsAdvanced (broadcasting msg) h = broadcast_step msg h
  advance-IsAdvanced (inserting msg) h = insert_step msg h
  advance-IsAdvanced (answered msg status) h = same_service (answered msg status) h

-- The service is sound, and each call is backed.
abbrev pub IsOrderly : Sends → Type 0
IsOrderly s = IsBackedPool IsServedSoundly IsBacked s

-- However the steps of any number of calls interleave, from a start in which this is so: the server
-- is sound; a call that is about to insert has handed its message to the live channel; and the
-- message of each call that has answered OK is both in what its live channel holds and in the table.
-- This is so on an engine that enforces references, gives new rows fresh keys and marks a row that
-- was not found as null.
pub run_sends-IsOrderly :
    (e : Engine) (schedule : List (ℕ × ℕ)) (s : Sends)
    → IsReliable e
    → IsOrderly s
    → IsOrderly (run_sends e schedule s)
run_sends-IsOrderly e schedule s reliable v =
    run-IsBackedPool (advance e) IsServedSoundly IsBacked IsLater
      (λ now p t g b. advance-IsAdvanced e reliable now t g p b)
      (λ before after p l b. IsBacked-later before after l p b) schedule s v
