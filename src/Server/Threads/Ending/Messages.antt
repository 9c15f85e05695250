-- ===== src/Server/Threads/Ending/Messages.antt =====
-- A step of a listener before its loop, or of a stream of messages, on a thread of the server
-- (Server.Threads), leaves it one fewer.
use wrongthink.Base.{
  ℕ, String, ◌≡◌, refl, ◌+◌, ◌-◌, ◌*◌, ◌≤◌, Bool, true, false, List, [], ◌∷◌, arith, length,
  if◌then◌else◌,
}
use wrongthink.Action.{Outcome, ok, thrown}
use wrongthink.Proto.{StatusCode, Status, WrongthinkMessage}
use wrongthink.Db.Engine.{Engine}
use wrongthink.Db.Channels.{NameRow, get_channel_row}
use wrongthink.Db.Messages.{insert_message_row}
use wrongthink.Service.{Service, on_db, is_live, is_null}
use wrongthink.Service.Messaging.{post}
use wrongthink.Service.Messaging.Threads as Messaging
use wrongthink.Service.Messaging.Threads.{Sending, fetched, stored}
use wrongthink.Service.Messaging.Entering as Listeners
use wrongthink.Service.Messaging.Entering.{Entering, row_of}
use wrongthink.Server.Threads.{after_sent, advance_stream}
use wrongthink.Server.Threads.Ending.Remaining.{
  entering_left, sending_left, behind_left, remaining, handler_left,
}

joining_within :
    (id : ℕ) (live : Bool)
    → entering_left (if live then Entering.joining id else Entering.fetching id) ≤ 3
unfolding entering_left
joining_within id true = omega (arith)
joining_within id false = omega (arith)

row_within :
    (id : ℕ) (name : String) (missing : Bool)
    → entering_left (if missing then Entering.refused id else Entering.emplacing id name) ≤ 2
unfolding entering_left
row_within id name true = omega (arith)
row_within id name false = omega (arith)

fetched_within : (id : ℕ) (r : Outcome NameRow × Service) → entering_left (row_of id r).0 ≤ 2
unfolding entering_left
fetched_within id (ok row, s) = row_within id row.name (is_null row.indicator)
fetched_within id (thrown x, s) = omega (arith)

pub advance-entering_left :
    (e : Engine) (p : Entering) (s : Service)
    → entering_left (Listeners.advance e p s).0 ≤ entering_left p - 1
unfolding Listeners.advance entering_left
advance-entering_left e (Entering.counting id) s = joining_within id (is_live id s.channel_map)
advance-entering_left e (Entering.fetching id) s =
    fetched_within id (on_db (get_channel_row e id) s)
advance-entering_left e (Entering.emplacing id name) s = omega (arith)
advance-entering_left e (Entering.joining id) s = omega (arith)
advance-entering_left e (Entering.listening id) s = omega (arith)
advance-entering_left e (Entering.refused id) s = omega (arith)
advance-entering_left e (Entering.failed x) s = omega (arith)

behind_within :
    (code : StatusCode) (rest : List WrongthinkMessage) → behind_left code rest ≤ 6 * length rest
unfolding behind_left
behind_within StatusCode.ok rest = omega (arith)
behind_within StatusCode.invalid_argument rest = omega (arith)
behind_within StatusCode.unauthenticated rest = omega (arith)
behind_within StatusCode.internal rest = omega (arith)

module _ (sent : List WrongthinkMessage) (msg : WrongthinkMessage) where
  -- The step from one message to the next.
  after_sent_lessens :
      (status : Status) (code : StatusCode) (rest : List WrongthinkMessage)
      → status.code ≡ code
      → remaining (after_sent sent msg status code rest) ≤ behind_left code rest - 1
  unfolding remaining handler_left sending_left behind_left
  after_sent_lessens status StatusCode.ok [] h = rw h (omega (arith))
  after_sent_lessens status StatusCode.ok (m ∷ rest) h = omega (arith)
  after_sent_lessens status StatusCode.invalid_argument rest h = rw h (omega (arith))
  after_sent_lessens status StatusCode.unauthenticated rest h = rw h (omega (arith))
  after_sent_lessens status StatusCode.internal rest h = rw h (omega (arith))

module _ (e : Engine) (now : ℕ) (sent rest : List WrongthinkMessage) where
  live_within :
      (msg : WrongthinkMessage) (live : Bool)
      → sending_left (if live then Sending.broadcasting msg else Sending.fetching msg) rest
        ≤ 4 + 6 * length rest
  unfolding sending_left
  live_within msg true = omega (arith)
  live_within msg false = omega (arith)

  named_within :
      (msg : WrongthinkMessage) (status : Status) (name : String) (missing : Bool)
      → sending_left
          (if missing then Sending.answered msg status else Sending.emplacing msg name)
          rest
        ≤ 3 + 6 * length rest
  unfolding sending_left
  named_within msg status name true = omega (arith, behind_within status.code rest)
  named_within msg status name false = omega (arith)

  fetch_within :
      (msg : WrongthinkMessage) (r : Outcome NameRow × Service)
      → sending_left (fetched msg r).0 rest ≤ 3 + 6 * length rest
  fetch_within msg (ok r, s) = named_within msg _ r.name (is_null r.indicator)
  fetch_within msg (thrown x, s) = named_within msg _ "" true

  stored_within :
      (msg : WrongthinkMessage) (r : Outcome (Unit {0}) × Service)
      → sending_left (stored msg r).0 rest ≤ 6 * length rest
  unfolding sending_left
  stored_within msg (ok done, s) = behind_within StatusCode.ok rest
  stored_within msg (thrown x, s) = behind_within StatusCode.internal rest

  pub advance_stream-remaining :
      (p : Sending) (s : Service)
      → remaining (advance_stream e now sent rest p s).0 ≤ sending_left p rest - 1
  unfolding Messaging.advance sending_left remaining handler_left
  advance_stream-remaining (Sending.counting msg) s =
      omega (arith, live_within msg (is_live msg.channelid s.channel_map))
  advance_stream-remaining (Sending.fetching msg) s =
      omega (arith, fetch_within msg (on_db (get_channel_row e msg.channelid) s))
  advance_stream-remaining (Sending.emplacing msg name) s = omega (arith)
  advance_stream-remaining (Sending.broadcasting msg) s = omega (arith)
  advance_stream-remaining (Sending.inserting msg) s =
      omega (arith, stored_within msg (on_db (insert_message_row e now (post msg)) s))
  advance_stream-remaining (Sending.answered msg status) s =
      after_sent_lessens sent msg status status.code rest refl
