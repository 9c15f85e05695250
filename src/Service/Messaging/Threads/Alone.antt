-- ===== src/Service/Messaging/Threads/Alone.antt =====
-- A call of `SendWrongthinkMessageWeb` that no other interrupts (WrongthinkServiceImpl.cpp).
use wrongthink.Base.{ℕ, Bool, true, false, ◌≡◌, refl, ◌∙◌, ap, Bool-cases, inl, inr, if◌then◌else◌}
use wrongthink.Action.{Outcome, ok, thrown, pure, and_then}
use wrongthink.Proto.{Status, ok_status, invalid_status, WrongthinkMessage}
use wrongthink.Db.Engine.{Engine}
use wrongthink.Db.Tables.{Db}
use wrongthink.Db.Channels.{NameRow, get_channel_row}
use wrongthink.Db.Messages.{insert_message_row}
use wrongthink.Service.{Service, on_db, is_live, is_null, emplace_row, check_for_channel, caught}
use wrongthink.Service.Messaging.{post, broadcast, send_one, send_wrongthink_message_web}
use wrongthink.Service.Messaging.Threads.{
  Sending, counting, broadcasting, answered, fetched, stored, advance,
}

abbrev next : Engine → ℕ → Sending × Service → Sending × Service
next e now (p, s) = advance e now p s

-- The longest way through the handler has five steps; an answer stays as it is.
abbrev five_steps : Engine → ℕ → Sending → Service → Sending × Service
five_steps e now p s = next e now (next e now (next e now (next e now (advance e now p s))))

abbrev answer : WrongthinkMessage → Status × Service → Sending × Service
answer msg (status, s) = (answered msg status, s)

abbrev finish : Bool → Status
finish known = if known then ok_status else invalid_status

-- Behind the check.
abbrev told : Engine → ℕ → WrongthinkMessage → Service → Outcome Bool × Service
told e now msg s =
    and_then (λ u. pure true)
      (and_then (λ u. on_db (insert_message_row e now (post msg))) (broadcast msg s))

module _ (e : Engine) (now : ℕ) (msg : WrongthinkMessage) where
  inserted :
      (r : Outcome (Unit {0}) × Service)
      → stored msg r
        ≡ answer msg
            (caught (and_then (λ known. pure (finish known)) (and_then (λ u. pure true) r)))
  inserted (ok u, s) = refl
  inserted (thrown x, s) = refl

  stays : (r : Outcome (Unit {0}) × Service) → next e now (stored msg r) ≡ stored msg r
  unfolding advance
  stays (ok u, s) = refl
  stays (thrown x, s) = refl

  abbrev rest : Outcome Bool × Service → Sending × Service
  rest r = answer msg (
      caught (
        and_then (λ known. pure (finish known))
          (and_then (λ known. if known then told e now msg else pure false) r)))

  from_broadcast :
      (s : Service) → next e now (advance e now (broadcasting msg) s) ≡ rest (ok true, s)
  unfolding advance broadcast
  from_broadcast s = inserted (on_db (insert_message_row e now (post msg)) (broadcast msg s).1)

  abbrev twice : Sending × Service → Sending × Service
  twice r = next e now (next e now r)

  -- From the broadcast on, two steps and two that change nothing.
  after_broadcast :
      (s : Service) → twice (next e now (advance e now (broadcasting msg) s)) ≡ rest (ok true, s)
  unfolding advance broadcast
  after_broadcast s =
      let r = on_db (insert_message_row e now (post msg)) (broadcast msg s).1 in
      ap (next e now) (stays r) ∙ stays r ∙ inserted r

  after_fetch :
      (r : Outcome NameRow × Db) (s : Service)
      → is_live msg.channelid s.channel_map ≡ false
      → twice (next e now (fetched msg (r.0, record s { db = r.1 })))
        ≡ rest (and_then (emplace_row msg.channelid) (r.0, record s { db = r.1 }))
  unfolding advance emplace_row
  after_fetch (thrown x, db) s cold = refl
  after_fetch (ok row, db) s cold = elim (Bool-cases (is_null row.indicator)) [
    | inl missing ↦ rw missing refl
    | inr found ↦ rw (found, cold) (from_broadcast _)
  ]

  -- The steps of a call, run one after the other with no other call between them, do to the server and
  -- answer just what the handler does.
  five_steps-eq-send_web :
      (s : Service)
      → five_steps e now (counting msg) s ≡ answer msg (send_wrongthink_message_web e now msg s)
  unfolding advance send_wrongthink_message_web send_one check_for_channel broadcast
  five_steps-eq-send_web s = elim (Bool-cases (is_live msg.channelid s.channel_map)) [
    | inl live ↦ rw live (after_broadcast s)
    | inr cold ↦ rw cold (after_fetch (get_channel_row e msg.channelid s.db) s cold)
  ]
