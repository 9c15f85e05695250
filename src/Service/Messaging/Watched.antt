-- ===== src/Service/Messaging/Watched.antt =====
-- A listener among interleaved sends: the loop of `ListenWrongthinkMessagesImpl` on one channel, and
-- calls of `SendWrongthinkMessageWeb` (WrongthinkServiceImpl.cpp) to any channels.
use mathlib.Core.Path.{subst}
use wrongthink.Base.{
  ℕ, String, some, get_or, List, [], ◌∷◌, ◌++◌, ◌≡◌, refl, ap, sym, ◌∙◌, ◌==◌, ==→eq, Bool-cases,
  inl, inr, if◌then◌else◌,
}
use wrongthink.Action.{Outcome, ok, thrown}
use wrongthink.Proto.{WrongthinkMessage, no_message}
use wrongthink.Channel.{SynchronizedChannel, default_channel, append_message}
use wrongthink.Channel.Listeners.{
  Phase, outside, waiting, notified, Listening, notify_all, sends, starts_waiting, wakes, returns,
  Run, done, step, listening, IsHeard, listening-IsHeard,
}
use wrongthink.Db.Engine.{Engine}
use wrongthink.Db.Channels.{NameRow, get_channel_row}
use wrongthink.Db.Messages.{insert_message_row}
use wrongthink.Service.{ChannelMap, Service, on_db, is_live, live_channel}
use wrongthink.Service.Cache.{live_channel-update, live_channel-append, cold_channel}
use wrongthink.Service.Messaging.{post, broadcast}
use wrongthink.Service.Messaging.Threads.{
  Sending, counting, fetching, broadcasting, inserting, emplacing, answered, emplaced, fetched,
  stored, advance, Sends, step_send,
}

-- The senders with the service, and the listener.
pub record Watched : Type 0 where
  pub sends : Sends
  pub phase : Phase
  pub written : List WrongthinkMessage

abbrev pub the_channel : ℕ → Watched → SynchronizedChannel
the_channel id w = get_or (live_channel id w.sends.shared.channel_map) default_channel

-- What the listener of the channel sees of all this.
abbrev pub seen_by : ℕ → Watched → Listening
seen_by id w = record { channel = the_channel id w; phase = w.phase; written = w.written }

-- `appendMessage` notifies the listeners of its channel.
abbrev pub woken : ℕ → Sending → Phase → Phase
woken id (broadcasting msg) p = if msg.channelid == id then notify_all p else p
woken id _ p = p

pub data WatchStep (e : Engine) (id : ℕ) (w : Watched) : Watched → Type 0 where
  sender_runs :
      (i now : ℕ)
      → WatchStep e id w (record {
        sends = step_send e i now w.sends;
        phase = woken id (w.sends.thread i) w.phase;
        written = w.written;
      })
  listener_waits : w.phase ≡ outside → WatchStep e id w (record w { phase = waiting })
  listener_wakes : w.phase ≡ waiting → WatchStep e id w (record w { phase = notified })
  listener_writes :
      w.phase ≡ notified
      → WatchStep e id w (record w {
        phase = outside;
        written = w.written ++ (the_channel id w).last_message ∷ [];
      })

pub data WatchRun (e : Engine) (id : ℕ) : Watched → Watched → Type 0 where
  over : {w : Watched} → WatchRun e id w w
  goes : {u v w : Watched} → WatchStep e id u v → WatchRun e id v w → WatchRun e id u w

-- What a step of a sender does to the live channel.
abbrev spoken : ℕ → Sending → SynchronizedChannel → SynchronizedChannel
spoken id (broadcasting msg) c = if msg.channelid == id then append_message msg c else c
spoken id _ c = c

fetched_service :
    (msg : WrongthinkMessage) (r : Outcome NameRow) (s : Service) → (fetched msg (r, s)).1 ≡ s
fetched_service msg (ok row) s = refl
fetched_service msg (thrown x) s = refl

stored_service :
    (msg : WrongthinkMessage) (r : Outcome (Unit {0})) (s : Service) → (stored msg (r, s)).1 ≡ s
stored_service msg (ok u) s = refl
stored_service msg (thrown x) s = refl

live_channel-emplaced :
    (id j : ℕ) (name : String) (m : ChannelMap) (c : SynchronizedChannel)
    → live_channel id m ≡ some c
    → live_channel id (emplaced j name m) ≡ some c
live_channel-emplaced id j name m c live = elim (Bool-cases (is_live j m)) [
  | inl there ↦ rw there live
  | inr cold ↦ elim (Bool-cases (is_live id m)) [
    | inl warm ↦ rw (cold, live_channel-append id m _, warm) live
    | inr gone ↦ cc (live, cold_channel id m gone)
  ]
]

advance_channel :
    (e : Engine) (now id : ℕ) (p : Sending) (s : Service) (c : SynchronizedChannel)
    → live_channel id s.channel_map ≡ some c
    → live_channel id (advance e now p s).1.channel_map ≡ some (spoken id p c)
unfolding advance broadcast
advance_channel e now id (counting msg) s c live = live
advance_channel e now id (fetching msg) s c live =
    ap (λ (t : Service). live_channel id t.channel_map)
      (fetched_service msg (get_channel_row e msg.channelid s.db).0
        (on_db (get_channel_row e msg.channelid) s).1)
    ∙ live
advance_channel e now id (emplacing msg name) s c live =
    live_channel-emplaced id msg.channelid name s.channel_map c live
advance_channel e now id (broadcasting msg) s c live =
    live_channel-update msg.channelid id (append_message msg) s.channel_map
    ∙ elim (Bool-cases (msg.channelid == id)) [
      | inl same ↦ rw (same, ==→eq msg.channelid id same, live) refl
      | inr other ↦ rw other live
    ]
advance_channel e now id (inserting msg) s c live =
    ap (λ (t : Service). live_channel id t.channel_map)
      (stored_service msg (insert_message_row e now (post msg) s.db).0
        (on_db (insert_message_row e now (post msg)) s).1)
    ∙ live
advance_channel e now id (answered msg status) s c live = live

effect-Run :
    (id : ℕ) (p : Sending) (l : Listening)
    → Run l (record {
      channel = spoken id p l.channel;
      phase = woken id p l.phase;
      written = l.written;
    })
effect-Run id (broadcasting msg) l = elim (Bool-cases (msg.channelid == id)) [
  | inl same ↦ rw same (step (sends msg) done)
  | inr other ↦ rw other done
]
effect-Run id (counting msg) l = done
effect-Run id (fetching msg) l = done
effect-Run id (emplacing msg name) l = done
effect-Run id (inserting msg) l = done
effect-Run id (answered msg status) l = done

Run-then : {a b c : Listening} → Run a b → Run b c → Run a c
Run-then done g = g
Run-then (step s f) g = step s (Run-then f g)

-- The channel is live.
abbrev pub IsLive : ℕ → Watched → Type 0
IsLive id w = (c : SynchronizedChannel) × (live_channel id w.sends.shared.channel_map ≡ some c)

module _ (e : Engine) (id : ℕ) where
  sender-Run :
      (i now : ℕ) (w : Watched)
      → IsLive id w
      → Run (seen_by id w) (
          seen_by id (record {
            sends = step_send e i now w.sends;
            phase = woken id (w.sends.thread i) w.phase;
            written = w.written;
          }))
  sender-Run i now w (c, live) =
      let before : the_channel id w ≡ c = ap (λ o. get_or o default_channel) live in
      let after =
        ap (λ o. get_or o default_channel)
          (advance_channel e now id (w.sends.thread i) w.sends.shared c live) in
      subst
        (λ ch. Run (seen_by id w) (record {
          channel = ch;
          phase = woken id (w.sends.thread i) w.phase;
          written = w.written;
        }))
        (ap (spoken id (w.sends.thread i)) before ∙ sym after)
        (effect-Run id (w.sends.thread i) (seen_by id w))

  WatchStep-Run :
      {w v : Watched} → WatchStep e id w v → IsLive id w → Run (seen_by id w) (seen_by id v)
  WatchStep-Run {w} (sender_runs i now) live = sender-Run i now w live
  WatchStep-Run (listener_waits h) live = step (starts_waiting h) done
  WatchStep-Run (listener_wakes h) live = step (wakes h) done
  WatchStep-Run (listener_writes h) live = step (returns h) done

  WatchStep-IsLive : {w v : Watched} → WatchStep e id w v → IsLive id w → IsLive id v
  WatchStep-IsLive {w} (sender_runs i now) (c, live) =
      (_, advance_channel e now id (w.sends.thread i) w.sends.shared c live)
  WatchStep-IsLive (listener_waits h) live = live
  WatchStep-IsLive (listener_wakes h) live = live
  WatchStep-IsLive (listener_writes h) live = live

  watched-Run :
      {w v : Watched} → WatchRun e id w v → IsLive id w → Run (seen_by id w) (seen_by id v)
  watched-Run over live = done
  watched-Run (goes s r) live =
      Run-then (WatchStep-Run s live) (watched-Run r (WatchStep-IsLive s live))

  -- However the steps of a listener and of any number of senders interleave, from a state in which
  -- the channel is live and holds no message and the listener has written nothing and is outside
  -- `waitMessage`: what the listener sees is a run of the step relation of its channel, and it has
  -- written messages of the channel, or the empty message before the first, in the order in which
  -- they were handed over.
  pub watched-IsHeard :
      {w v : Watched}
      → WatchRun e id w v
      → IsLive id w
      → (the_channel id w).msg_vector ≡ []
      → (the_channel id w).last_message ≡ no_message
      → w.phase ≡ outside
      → w.written ≡ []
      → Run (listening (the_channel id w)) (seen_by id v) × IsHeard (seen_by id v)
  watched-IsHeard {w} {v} r live empty unsaid start unwritten =
      let whole : Run (listening (the_channel id w)) (seen_by id v) =
        rw (start, unwritten) at (watched-Run r live) in
      (whole, listening-IsHeard (the_channel id w) (seen_by id v) empty unsaid whole)
