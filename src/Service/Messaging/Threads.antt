-- ===== src/Service/Messaging/Threads.antt =====
-- Calls of `SendWrongthinkMessageWeb` (WrongthinkServiceImpl.cpp) on threads of their own: between the
-- uses of `channelMap` and the statements of one call, those of others run. The map is used without a
-- lock, as if each of its operations were one step.
pub mod Accounts
pub mod Alone
pub mod Backed
pub mod Interleaved
pub mod Races
use wrongthink.Base.{ℕ, String, Bool, true, false, List, [], ◌∷◌, ◌==◌, if◌then◌else◌}
use wrongthink.Concurrent.{Pool, step, run}
use wrongthink.Action.{Outcome, ok, thrown}
use wrongthink.Proto.{Status, ok_status, invalid_status, internal_status, WrongthinkMessage}
use wrongthink.Channel.{of_name}
use wrongthink.Db.Engine.{Engine}
use wrongthink.Db.Channels.{NameRow, get_channel_row}
use wrongthink.Db.Messages.{insert_message_row}
use wrongthink.Service.{ChannelMap, Service, on_db, is_live, emplace, is_null}
use wrongthink.Service.Messaging.{post, broadcast}

-- What a call does next, or how it ended: `channelMap.count`, `getChannelRow`, `channelMap.emplace`,
-- `appendMessage`, the insert.
pub data Sending : Type 0 where
  counting fetching broadcasting inserting : WrongthinkMessage → Sending
  emplacing : WrongthinkMessage → String → Sending
  answered : WrongthinkMessage → Status → Sending

-- channelMap.emplace(id, …), which changes nothing where the key is there.
abbrev pub emplaced : ℕ → String → ChannelMap → ChannelMap
emplaced id name m = if is_live id m then m else emplace id (of_name id name) m

abbrev pub fetched : WrongthinkMessage → Outcome NameRow × Service → Sending × Service
fetched msg (ok r, s) =
    (if is_null r.indicator then answered msg invalid_status else emplacing msg r.name, s)
fetched msg (thrown x, s) = (answered msg internal_status, s)

abbrev pub stored : WrongthinkMessage → Outcome (Unit {0}) × Service → Sending × Service
stored msg (ok u, s) = (answered msg ok_status, s)
stored msg (thrown x, s) = (answered msg internal_status, s)

unfoldable pub advance : Engine → ℕ → Sending → Service → Sending × Service
advance e now (counting msg) s =
    (if is_live msg.channelid s.channel_map then broadcasting msg else fetching msg, s)
advance e now (fetching msg) s = fetched msg (on_db (get_channel_row e msg.channelid) s)
advance e now (emplacing msg name) s =
    (broadcasting msg, record s { channel_map = emplaced msg.channelid name s.channel_map })
advance e now (broadcasting msg) s = (inserting msg, (broadcast msg s).1)
advance e now (inserting msg) s = stored msg (on_db (insert_message_row e now (post msg)) s)
advance e now (answered msg status) s = (answered msg status, s)

abbrev pub Sends : Type 0
Sends = Pool Sending Service

abbrev pub step_send : Engine → ℕ → ℕ → Sends → Sends
step_send e i now s = step (advance e) i now s

-- A schedule names the call that runs a step, and the clock.
abbrev pub run_sends : Engine → List (ℕ × ℕ) → Sends → Sends
run_sends e schedule s = run (advance e) schedule s
