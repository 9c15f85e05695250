-- ===== src/Service/Soundness/Sends.antt =====
-- Sending a message keeps the server sound (`SendWrongthinkMessageWeb`, and a round of
-- `SendWrongthinkMessageImpl`, WrongthinkServiceImpl.cpp).
use wrongthink.Base.{ℕ, true, ◌≡◌, arith, Bool-cases, Option-cases, inl, inr}
use wrongthink.Proto.{WrongthinkMessage}
use wrongthink.Channel.{append_message}
use wrongthink.Db.Engine.{Engine}
use wrongthink.Db.Messages.{message_violation}
use wrongthink.Service.{Service}
use wrongthink.Service.Cache.{
  channel_exists, IsServing, checked_map, check_for_channel_exact, check_absent,
  update_channel-IsCoherent,
}
use wrongthink.Service.Messaging.{post, send_one}
use wrongthink.Service.Messaging.Sending.{
  heard_only, send_one_unknown, send_one-posted, send_one_heard, posted-IsServing,
}
use wrongthink.Service.Soundness.Inserts.{with_message-IsSound, refused_message-IsSound}
use wrongthink.Service.Soundness.Handlers.{IsServedSoundly, IsReliable}

module _ (e : Engine) (reliable : IsReliable e) (s : Service) (v : IsServedSoundly s) where
  heard_only-IsServing :
      (msg : WrongthinkMessage)
      → channel_exists msg.channelid s.db ≡ true
      → IsServing (heard_only e msg s)
  heard_only-IsServing msg there =
      let checks = check_for_channel_exact e msg.channelid s reliable.null v.serving in
      record {
        ready = ground (arith, v.serving.ready);
        coherent =
            update_channel-IsCoherent msg.channelid (append_message msg) s.db
              (checked_map e msg.channelid s) there checks.coherent;
      }

  pub send_one-IsServedSoundly :
      (now : ℕ) (msg : WrongthinkMessage) → IsServedSoundly (send_one e now msg s).1
  send_one-IsServedSoundly now msg = elim (Bool-cases (channel_exists msg.channelid s.db)) [
    | inr absent ↦
        rw
          (send_one_unknown e now msg s s
            (check_absent e msg.channelid s reliable.null v.serving absent))
          v
    | inl there ↦ elim (Option-cases (message_violation e (post msg) s.db)) [
      | inl free ↦ rw (send_one-posted e now msg s reliable.null v.serving (there, free)) (record {
        serving = posted-IsServing e now msg s reliable.null v.serving there;
        sound =
            with_message-IsSound e reliable.fresh s.db v.sound v.serving.ready reliable.enforced now
              (post msg) free;
      })
      | inr (x, refused) ↦
          rw (send_one_heard e now msg s reliable.null v.serving x there refused) (record {
            serving = heard_only-IsServing msg there;
            sound = refused_message-IsSound e reliable.fresh s.db v.sound (post msg) x;
          })
    ]
  ]
