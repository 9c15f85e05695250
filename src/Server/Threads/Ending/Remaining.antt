-- ===== src/Server/Threads/Ending/Remaining.antt =====
-- How many steps a thread of the server (Server.Threads) has left, at most.
use wrongthink.Base.{ℕ, ◌+◌, ◌*◌, Bool, true, false, List, [], ◌∷◌, length, if◌then◌else◌}
use wrongthink.Proto.{StatusCode, WrongthinkMessage}
use wrongthink.Db.Users.Threads.{Creating}
use wrongthink.Db.Channels.Threads.{Making}
use wrongthink.Db.Bans.Threads.{Banning}
use wrongthink.Db.Bans.Lookups.{Looking}
use wrongthink.Service.Accounts.Guarding.{Guarding}
use wrongthink.Service.Messaging.Threads.{Sending}
use wrongthink.Service.Messaging.Entering.{Entering}
use wrongthink.Service.Soundness.Runs.{Request}
use wrongthink.Server.Threads.{
  Serving, checking, creating, making, guarding, entering, sending, idle, begun,
}

-- `createUser`: three statements.
unfoldable pub creating_left : Creating → ℕ
creating_left (Creating.counting uname token admin) = 3
creating_left (Creating.inserting uname token admin) = 2
creating_left (Creating.selecting uname admin) = 1
creating_left (Creating.answered uname uid admin) = 0
creating_left (Creating.failed x) = 0

-- `createChannel` and `createCommunity`: an insert and a select.
unfoldable pub making_left : Making → ℕ
making_left (Making.inserting_channel name community admin_id anonymous) = 2
making_left (Making.selecting_channel name) = 1
making_left (Making.made_channel name id) = 0
making_left (Making.inserting_community name admin pub_flag garbage) = 2
making_left (Making.selecting_community name garbage) = 1
making_left (Making.made_community name id) = 0
making_left (Making.failed x) = 0

-- `banUser`: two selects, and an insert or an update.
unfoldable pub banning_left : Banning → ℕ
banning_left (Banning.finding name days) = 3
banning_left (Banning.checking uid days) = 2
banning_left (Banning.extending uid days) = 1
banning_left (Banning.inserting uid days) = 1
banning_left (Banning.banned uid) = 0
banning_left (Banning.failed x) = 0

-- `BanUser`: the two checks before that.
unfoldable pub guarding_left : Guarding → ℕ
guarding_left (Guarding.validating uname token request) = 5
guarding_left (Guarding.admitting uname token request) = 4
guarding_left (Guarding.banning uname token p) = banning_left p
guarding_left (Guarding.denied status) = 0

-- `isIPBanned` and `isUserBanned`. One that has answered has the step to what follows it.
unfoldable pub looking_left : Looking → ℕ
looking_left (Looking.selecting_ip ip) = 2
looking_left (Looking.deleting_ip ip) = 1
looking_left (Looking.selecting_user uname ip) = 4
looking_left (Looking.deleting_user uname) = 1
looking_left (Looking.checking_ip ip date) = 3
looking_left (Looking.clearing_ip ip date) = 2
looking_left (Looking.inserting_ip ip date) = 1
looking_left (Looking.looked b) = 1
looking_left (Looking.failed x) = 1

-- `ListenWrongthinkMessages` before its loop.
unfoldable pub entering_left : Entering → ℕ
entering_left (Entering.counting id) = 4
entering_left (Entering.fetching id) = 3
entering_left (Entering.emplacing id name) = 2
entering_left (Entering.joining id) = 1
entering_left (Entering.listening id) = 0
entering_left (Entering.refused id) = 0
entering_left (Entering.failed x) = 0

-- The messages behind one that was accepted; the stream ends at any other.
unfoldable pub behind_left : StatusCode → List WrongthinkMessage → ℕ
behind_left StatusCode.ok rest = 6 * length rest
behind_left code rest = 0

-- A stream of messages: six steps for each but the first, which is read when the thread begins.
unfoldable pub sending_left : Sending → List WrongthinkMessage → ℕ
sending_left (Sending.counting msg) rest = 5 + 6 * length rest
sending_left (Sending.fetching msg) rest = 4 + 6 * length rest
sending_left (Sending.emplacing msg name) rest = 3 + 6 * length rest
sending_left (Sending.broadcasting msg) rest = 2 + 6 * length rest
sending_left (Sending.inserting msg) rest = 1 + 6 * length rest
sending_left (Sending.answered msg status) rest = behind_left status.code rest

unfoldable pub handler_left : Serving → ℕ
handler_left (creating p) = creating_left p
handler_left (making p) = making_left p
handler_left (guarding p) = guarding_left p
handler_left (entering p) = entering_left p
handler_left (sending sent p rest) = sending_left p rest
handler_left p = 0

-- The checks of a batch.
unfoldable pub checks_left : List Looking → ℕ
checks_left [] = 0
checks_left (p ∷ ps) = looking_left p + checks_left ps

unfoldable pub batches_left : List (List Looking) → ℕ
batches_left [] = 0
batches_left (ps ∷ batches) = checks_left ps + batches_left batches

-- The batches to come, and the handler.
unfoldable pub call_left : List (List Looking) → Bool → Request → ℕ
call_left batches handled request =
    batches_left batches + (if handled then handler_left (begun request) else 0)

unfoldable pub remaining : Serving → ℕ
remaining (checking p ps batches handled request) =
    looking_left p + (checks_left ps + call_left batches handled request)
remaining p = handler_left p

-- The code of a status that ends a stream.
unfoldable pub is_refused : StatusCode → Bool
is_refused StatusCode.ok = false
is_refused code = true

-- A thread that has ended: its handler has answered or thrown, or it listens, or there is none.
unfoldable pub has_ended : Serving → Bool
has_ended (creating (Creating.answered uname uid admin)) = true
has_ended (creating (Creating.failed x)) = true
has_ended (making (Making.made_channel name id)) = true
has_ended (making (Making.made_community name id)) = true
has_ended (making (Making.failed x)) = true
has_ended (guarding (Guarding.denied status)) = true
has_ended (guarding (Guarding.banning uname token (Banning.banned uid))) = true
has_ended (guarding (Guarding.banning uname token (Banning.failed x))) = true
has_ended (entering (Entering.listening id)) = true
has_ended (entering (Entering.refused id)) = true
has_ended (entering (Entering.failed x)) = true
has_ended (sending sent (Sending.answered msg status) []) = true
has_ended (sending sent (Sending.answered msg status) (m ∷ rest)) = is_refused status.code
has_ended idle = true
has_ended p = false
