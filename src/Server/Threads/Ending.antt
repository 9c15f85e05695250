-- ===== src/Server/Threads/Ending.antt =====
-- Each thread of the server (Server.Threads) ends.
pub mod Remaining
pub mod Handlers
pub mod Messages
pub mod Checks
use wrongthink.Base.{ℕ, ◌⊎◌, inl, inr, ◌≤◌, ◌-◌, ◌≡◌, refl, true, List, [], ◌∷◌, arith}
use wrongthink.Proto.{StatusCode, WrongthinkMessage}
use wrongthink.Concurrent.Ending.{turns_of, remaining-run}
use wrongthink.Db.Engine.{Engine}
use wrongthink.Db.Users.Threads.{Creating}
use wrongthink.Db.Channels.Threads.{Making}
use wrongthink.Db.Bans.Threads.{Banning}
use wrongthink.Db.Bans.Lookups.{Looking}
use wrongthink.Service.{Service}
use wrongthink.Service.Accounts.Guarding.{Guarding}
use wrongthink.Service.Messaging.Threads.{Sending}
use wrongthink.Service.Messaging.Entering.{Entering}
use wrongthink.Server.Threads.{
  Serving, Threads, checking, creating, making, guarding, entering, sending, idle, advance,
  run_threads,
}
use wrongthink.Server.Threads.Ending.Remaining.{
  remaining, is_refused, has_ended, handler_left, creating_left, making_left, guarding_left,
  banning_left, entering_left, sending_left, behind_left, looking_left,
}
use wrongthink.Server.Threads.Ending.Handlers.{
  advance-creating_left, advance-making_left, advance-guarding_left,
}
use wrongthink.Server.Threads.Ending.Messages.{advance-entering_left, advance_stream-remaining}
use wrongthink.Server.Threads.Ending.Checks.{checked-remaining}

-- One step of a thread leaves it one fewer.
advance-remaining :
    (e : Engine) (now : ℕ) (p : Serving) (s : Service)
    → remaining (advance e now p s).0 ≤ remaining p - 1
unfolding advance remaining handler_left
advance-remaining e now (checking p ps batches handled request) s =
    checked-remaining request batches handled ps e now p s.db
advance-remaining e now (creating p) s = advance-creating_left e p s.db
advance-remaining e now (making p) s = advance-making_left e p s.db
advance-remaining e now (guarding p) s = advance-guarding_left e now p s.db
advance-remaining e now (entering p) s = advance-entering_left e p s
advance-remaining e now (sending sent p rest) s = advance_stream-remaining e now sent rest p s
advance-remaining e now idle s = omega (arith)

-- A thread that has not ended has a step left.
abbrev EndsOrSteps : Serving → Type 0
EndsOrSteps p = (has_ended p ≡ true) ⊎ (1 ≤ remaining p)

creating-EndsOrSteps : (p : Creating) → EndsOrSteps (creating p)
unfolding has_ended remaining handler_left creating_left
creating-EndsOrSteps (Creating.counting uname token admin) = inr (omega (arith))
creating-EndsOrSteps (Creating.inserting uname token admin) = inr (omega (arith))
creating-EndsOrSteps (Creating.selecting uname admin) = inr (omega (arith))
creating-EndsOrSteps (Creating.answered uname uid admin) = inl refl
creating-EndsOrSteps (Creating.failed x) = inl refl

making-EndsOrSteps : (p : Making) → EndsOrSteps (making p)
unfolding has_ended remaining handler_left making_left
making-EndsOrSteps (Making.inserting_channel name community admin_id anonymous) =
    inr (omega (arith))
making-EndsOrSteps (Making.selecting_channel name) = inr (omega (arith))
making-EndsOrSteps (Making.made_channel name id) = inl refl
making-EndsOrSteps (Making.inserting_community name admin pub_flag garbage) = inr (omega (arith))
making-EndsOrSteps (Making.selecting_community name garbage) = inr (omega (arith))
making-EndsOrSteps (Making.made_community name id) = inl refl
making-EndsOrSteps (Making.failed x) = inl refl

guarding-EndsOrSteps : (p : Guarding) → EndsOrSteps (guarding p)
unfolding has_ended remaining handler_left guarding_left banning_left
guarding-EndsOrSteps (Guarding.validating uname token request) = inr (omega (arith))
guarding-EndsOrSteps (Guarding.admitting uname token request) = inr (omega (arith))
guarding-EndsOrSteps (Guarding.banning uname token (Banning.finding name days)) =
    inr (omega (arith))
guarding-EndsOrSteps (Guarding.banning uname token (Banning.checking uid days)) =
    inr (omega (arith))
guarding-EndsOrSteps (Guarding.banning uname token (Banning.extending uid days)) =
    inr (omega (arith))
guarding-EndsOrSteps (Guarding.banning uname token (Banning.inserting uid days)) =
    inr (omega (arith))
guarding-EndsOrSteps (Guarding.banning uname token (Banning.banned uid)) = inl refl
guarding-EndsOrSteps (Guarding.banning uname token (Banning.failed x)) = inl refl
guarding-EndsOrSteps (Guarding.denied status) = inl refl

entering-EndsOrSteps : (p : Entering) → EndsOrSteps (entering p)
unfolding has_ended remaining handler_left entering_left
entering-EndsOrSteps (Entering.counting id) = inr (omega (arith))
entering-EndsOrSteps (Entering.fetching id) = inr (omega (arith))
entering-EndsOrSteps (Entering.emplacing id name) = inr (omega (arith))
entering-EndsOrSteps (Entering.joining id) = inr (omega (arith))
entering-EndsOrSteps (Entering.listening id) = inl refl
entering-EndsOrSteps (Entering.refused id) = inl refl
entering-EndsOrSteps (Entering.failed x) = inl refl

module _ (sent : List WrongthinkMessage) where
  answered-EndsOrSteps :
      (msg m : WrongthinkMessage) (rest : List WrongthinkMessage) (code : StatusCode)
      → (is_refused code ≡ true) ⊎ (1 ≤ behind_left code (m ∷ rest))
  unfolding is_refused behind_left
  answered-EndsOrSteps msg m rest StatusCode.ok = inr (omega (arith))
  answered-EndsOrSteps msg m rest StatusCode.invalid_argument = inl refl
  answered-EndsOrSteps msg m rest StatusCode.unauthenticated = inl refl
  answered-EndsOrSteps msg m rest StatusCode.internal = inl refl

  sending-EndsOrSteps :
      (p : Sending) (rest : List WrongthinkMessage) → EndsOrSteps (sending sent p rest)
  unfolding has_ended remaining handler_left sending_left
  sending-EndsOrSteps (Sending.counting msg) rest = inr (omega (arith))
  sending-EndsOrSteps (Sending.fetching msg) rest = inr (omega (arith))
  sending-EndsOrSteps (Sending.broadcasting msg) rest = inr (omega (arith))
  sending-EndsOrSteps (Sending.inserting msg) rest = inr (omega (arith))
  sending-EndsOrSteps (Sending.emplacing msg name) rest = inr (omega (arith))
  sending-EndsOrSteps (Sending.answered msg status) [] = inl refl
  sending-EndsOrSteps (Sending.answered msg status) (m ∷ rest) =
      answered-EndsOrSteps msg m rest status.code

looking-left : (p : Looking) → 1 ≤ looking_left p
unfolding looking_left
looking-left (Looking.selecting_ip ip) = omega (arith)
looking-left (Looking.deleting_ip ip) = omega (arith)
looking-left (Looking.selecting_user uname ip) = omega (arith)
looking-left (Looking.deleting_user uname) = omega (arith)
looking-left (Looking.checking_ip ip date) = omega (arith)
looking-left (Looking.clearing_ip ip date) = omega (arith)
looking-left (Looking.inserting_ip ip date) = omega (arith)
looking-left (Looking.looked b) = omega (arith)
looking-left (Looking.failed x) = omega (arith)

ends_or_steps : (p : Serving) → EndsOrSteps p
unfolding has_ended remaining handler_left
ends_or_steps (checking p ps batches handled request) = inr (omega (arith, looking-left p))
ends_or_steps (creating p) = creating-EndsOrSteps p
ends_or_steps (making p) = making-EndsOrSteps p
ends_or_steps (guarding p) = guarding-EndsOrSteps p
ends_or_steps (entering p) = entering-EndsOrSteps p
ends_or_steps (sending sent p rest) = sending-EndsOrSteps sent p rest
ends_or_steps idle = inl refl

-- However the steps of any number of calls interleave, each call ends. Of a thread that has
-- had as many steps as `remaining` allows it, the handler has answered or thrown, or it is that of a
-- listener, which waits in its loop or was turned away; or the call has no more to do, since it runs
-- no handler, or one that only reads. No other thread can keep it from this.
pub run_threads-has_ended :
    (e : Engine) (schedule : List (ℕ × ℕ)) (s : Threads) (i : ℕ)
    → remaining (s.thread i) ≤ turns_of i schedule
    → has_ended ((run_threads e schedule s).thread i) ≡ true
run_threads-has_ended e schedule s i enough =
    elim (ends_or_steps ((run_threads e schedule s).thread i)) [
      | inl ended ↦ ended
      | inr more ↦ absurd (
          omega (
            arith,
            enough,
            more,
            remaining-run (advance e) remaining (advance-remaining e) i schedule s,
          ))
    ]
