-- ===== src/Service/Messaging/Entering.antt =====
-- Calls of `ListenWrongthinkMessages` (WrongthinkServiceImpl.cpp) on threads of their own, up to the
-- loop: between the uses of `channelMap` and the statement of one call, the steps of others run.
pub mod Interleaved
use wrongthink.Base.{ℕ, String, Bool, true, false, ◌≡◌, refl, Bool-cases, inl, inr, if◌then◌else◌}
use wrongthink.Action.{Action, Exception, Outcome, ok, thrown, pure, and_then}
use wrongthink.Channel.{of_name}
use wrongthink.Db.Engine.{Engine}
use wrongthink.Db.Tables.{Db}
use wrongthink.Db.Channels.{NameRow, get_channel_row}
use wrongthink.Service.{
  Service, on_db, is_live, is_null, update_channel, emplace_row, check_for_channel,
}
use wrongthink.Service.Messaging.{listen_start}
use wrongthink.Service.Messaging.Threads.{emplaced}

-- What a call does next, or how it ended: `channelMap.count`, `getChannelRow`, `channelMap.emplace`,
-- `channelMap[…]`; it waits for messages, it has returned, or it has thrown.
pub data Entering : Type 0 where
  counting fetching joining listening refused : ℕ → Entering
  emplacing : ℕ → String → Entering
  failed : Exception → Entering

abbrev pub row_of : ℕ → Outcome NameRow × Service → Entering × Service
row_of id (ok r, s) = (if is_null r.indicator then refused id else emplacing id r.name, s)
row_of id (thrown x, s) = (failed x, s)

unfoldable pub advance : Engine → Entering → Service → Entering × Service
advance e (counting id) s = (if is_live id s.channel_map then joining id else fetching id, s)
advance e (fetching id) s = row_of id (on_db (get_channel_row e id) s)
advance e (emplacing id name) s =
    (joining id, record s { channel_map = emplaced id name s.channel_map })
advance e (joining id) s =
    (listening id, record s { channel_map = update_channel id (λ c. c) s.channel_map })
advance e (listening id) s = (listening id, s)
advance e (refused id) s = (refused id, s)
advance e (failed x) s = (failed x, s)

abbrev pub after : ℕ → Outcome Bool × Service → Entering × Service
after id (ok known, s) = (if known then listening id else refused id, s)
after id (thrown x, s) = (failed x, s)

module _ (e : Engine) (id : ℕ) where
  abbrev next : Entering × Service → Entering × Service
  next (p, s) = advance e p s

  abbrev join : Bool → Action Service Bool
  join known =
      if known
      then (λ s. (ok true, record s { channel_map = update_channel id (λ c. c) s.channel_map }))
      else pure false

  after_fetch :
      (r : Outcome NameRow × Db) (s : Service)
      → is_live id s.channel_map ≡ false
      → next (next (row_of id (r.0, record s { db = r.1 })))
        ≡ after id (and_then join (and_then (emplace_row id) (r.0, record s { db = r.1 })))
  unfolding advance emplace_row
  after_fetch (thrown x, db) s cold = refl
  after_fetch (ok row, db) s cold = elim (Bool-cases (is_null row.indicator)) [
    | inl missing ↦ rw missing refl
    | inr found ↦ rw (found, cold) refl
  ]

  -- The steps of a call, run one after the other with no other call between them, do to the server
  -- and answer just what the handler does before its loop.
  pub four_steps-eq-listen_start :
      (s : Service)
      → next (next (next (advance e (counting id) s))) ≡ after id (listen_start e id s)
  unfolding advance listen_start check_for_channel
  four_steps-eq-listen_start s = elim (Bool-cases (is_live id s.channel_map)) [
    | inl live ↦ rw live refl
    | inr cold ↦ rw cold (after_fetch (get_channel_row e id s.db) s cold)
  ]
